-- ===== src/Machine/CrashLogic.antt =====
-- Crash Hoare logic for the actions on the disk. `Triple I P m Q`: from files with `P`, a run of `m`
-- that returns ends in files with `Q`, and one that stops, wherever it stops, leaves files with `I`;
-- and a run that no fault disturbs returns.
use quarters.Prelude.{
  refl, sym, subst, Option, none, some, ◌≡◌, ◌≢◌, Bool, true, false, List, [], ◌∷◌, nat_eq,
  bytes_eq, Result, ok, err, reject_if,
}
use quarters.Error.{ErrorKind}
use quarters.Machine.{
  Stop, crashed, failed, outcome, attempt, caught, Disk, Action, return, ◌>>=◌, ◌>>◌, effect, lift,
}

abbrev pub Post :
    {F A : Type 0} → (F → Type 0) → (A → F → Type 0) → List Bool → Disk F × Result Stop A → Type 0
Post I Q fate (d, ok a) = Q a d.files × (fate ≡ [] → d.fate ≡ [])
Post I Q fate (d, err k) = I d.files × ((fate ≢ []) × (k ≡ crashed))

-- One operation, and what it makes of the files.
abbrev pub Does : {F A : Type 0} → (A → F → Type 0) → F × Result ErrorKind A → Type 0
Does Q (s, ok a) = Q a s
Does Q (s, err k) = ⊥

pub record Triple {F A : Type 0} (I P : F → Type 0) (m : Action F A) (Q : A → F → Type 0)
    : Type 0 where
  pub at : (d : Disk F) → P d.files → Post I Q d.fate (m d)

module _ {F A : Type 0} {I P : F → Type 0} {Q : A → F → Type 0} where
  pub Triple-return : (a : A) → ((s : F) → P s → Q a s) → Triple I P (return a) Q
  Triple-return a h = record { at = λ d p. (h d.files p, λ e. e) }

  pub Triple-weaken :
      {P' : F → Type 0} {m : Action F A} → ((s : F) → P' s → P s) → Triple I P m Q → Triple I P' m Q
  Triple-weaken h t = record { at = λ d p. t.at d (h d.files p) }

  pub Triple-effect :
      (f : F → F × Result ErrorKind A)
      → ((s : F) → P s → I s)
      → ((s : F) → P s → Does Q (f s))
      → Triple I P (effect f) Q
  unfolding effect
  Triple-effect f safe does = record { at = go }
    where
      step :
          (s : F) (x : F × Result ErrorKind A) (fate rest : List Bool)
          → Does Q x
          → (fate ≡ [] → rest ≡ [])
          → Post I Q fate (record { files = x.0; fate = rest }, outcome x.1)
      step s (after, ok a) fate rest h k = (h, k)
      step s (after, err e) fate rest h k = absurd h

      by_fate :
          (s : F) (fate : List Bool)
          → P s
          → Post I Q fate (effect f (record { files = s; fate = fate }))
      by_fate s [] p = step s (f s) [] [] (does s p) (λ e. e)
      by_fate s (true ∷ rest) p = step s (f s) (true ∷ rest) rest (does s p) (λ e. cc)
      by_fate s (false ∷ rest) p = (safe s p, (λ e. cc, refl))

      go : (d : Disk F) → P d.files → Post I Q d.fate (effect f d)
      go d p = by_fate d.files d.fate p

module _ {F A B : Type 0} {I P : F → Type 0} {Q : A → F → Type 0} {R : B → F → Type 0} where
  pub Triple-bind :
      (m : Action F A) (f : A → Action F B)
      → Triple I P m Q
      → ((a : A) → Triple I (Q a) (f a) R)
      → Triple I P (m >>= f) R
  unfolding ◌>>=◌
  Triple-bind m f tm tf = record { at = λ d p. step (m d) d.fate (tm.at d p) }
    where
      join :
          (fate : List Bool) (d : Disk F) (x : Disk F × Result Stop B)
          → (fate ≡ [] → d.fate ≡ [])
          → Post I R d.fate x
          → Post I R fate x
      join fate d (d', ok b) k (r, l) = (r, λ e. l (k e))
      join fate d (d', err e) k (i, (n, c)) = (i, (λ q. n (k q), c))

      step :
          (x : Disk F × Result Stop A) (fate : List Bool)
          → Post I Q fate x
          → Post I R fate (elim x.1 [ ok a ↦ f a x.0 | err k ↦ (x.0, err k) ])
      step (d', ok a) fate (q, k) = join fate d' (f a d') k ((tf a).at d' q)
      step (d', err e) fate (i, n) = (i, n)

-- A test whose outcome the precondition fixes.
pub Triple-lift :
    {F A : Type 0} {I P : F → Type 0} (r : Result ErrorKind A) (a : A)
    → r ≡ ok a
    → Triple I P (lift r) (λ x s. (x ≡ a) × P s)
Triple-lift (ok b) a h = record { at = λ d p. ((cc, p), λ e. e) }
Triple-lift (err k) a h = cc

pub Triple-passes :
    {F : Type 0} {I P : F → Type 0} (b : Bool) (k : ErrorKind)
    → b ≡ false
    → Triple I P (lift (reject_if b k)) (λ _. P)
Triple-passes true k h = cc
Triple-passes false k h = record { at = λ d p. (p, λ e. e) }

pub Triple-then :
    {F B : Type 0} {I P Q : F → Type 0} {R : B → F → Type 0} (m : Action F (Unit {0}))
    (k : Action F B)
    → Triple I P m (λ _. Q)
    → Triple I Q k R
    → Triple I P (m >> k) R
Triple-then m k tm tk = Triple-bind m (λ _. k) tm (λ _. tk)

pub Triple-absent :
    {F : Type 0} {I P : F → Type 0} (b : Bool) (k : ErrorKind)
    → Triple I (λ s. (b ≡ false) × P s) (lift (reject_if b k)) (λ _. P)
Triple-absent true k = record { at = λ d (e, p). cc }
Triple-absent false k = record { at = λ d (e, p). (p, λ q. q) }

-- A fact about the value that was just read.
pub Triple-given :
    {F A X : Type 0} {I P : F → Type 0} {Q : A → F → Type 0} {m : Action F A}
    → (X → Triple I P m Q)
    → Triple I (λ s. X × P s) m Q
Triple-given h = record { at = λ d (f, p). (h f).at d p }

pub Triple-ok :
    {F : Type 0} {I P : F → Type 0} (r : Result ErrorKind (Unit {0}))
    → r ≡ ok tt
    → Triple I P (lift r) (λ _. P)
Triple-ok (ok a) h = record { at = λ d p. (p, λ e. e) }
Triple-ok (err k) h = cc

pub Triple-follow :
    {F A : Type 0} {I P : F → Type 0} {Q Q' : A → F → Type 0} {m : Action F A}
    → ((a : A) (s : F) → Q a s → Q' a s)
    → Triple I P m Q
    → Triple I P m Q'
Triple-follow {F} {A} {I} {P} {Q} {Q'} {m} h t = record { at = λ d p. step (m d) d.fate (t.at d p) }
  where
    step : (x : Disk F × Result Stop A) (fate : List Bool) → Post I Q fate x → Post I Q' fate x
    step (d, ok a) fate (q, e) = (h a d.files q, e)
    step (d, err k) fate p = p

-- Where no error but a crash can come, nothing is caught.
abbrev pub Caught : {F A : Type 0} → (A → F → Type 0) → Option A → F → Type 0
Caught Q none s = ⊥
Caught Q (some a) s = Q a s

pub Triple-attempt :
    {F A : Type 0} {I P : F → Type 0} {Q : A → F → Type 0} {m : Action F A}
    → Triple I P m Q
    → Triple I P (attempt m) (Caught Q)
unfolding attempt
Triple-attempt {F} {A} {I} {P} {Q} {m} t = record { at = λ d p. step (m d) d.fate (t.at d p) }
  where
    step :
        (x : Disk F × Result Stop A) (fate : List Bool)
        → Post I Q fate x
        → Post I (Caught Q) fate (caught x)
    step (d, ok a) fate q = q
    step (d, err crashed) fate q = q
    step (d, err (failed k)) fate (i, (n, c)) = cc

-- An operation that is refused and changes nothing, as a value.
pub Triple-refused :
    {F A : Type 0} {I P : F → Type 0} (f : F → F × Result ErrorKind A) (k : ErrorKind)
    → ((s : F) → P s → I s)
    → ((s : F) → P s → f s ≡ (s, err k))
    → Triple I P (attempt (effect f)) (λ o s. (o ≡ none) × P s)
unfolding effect attempt
Triple-refused {F} {A} {I} {P} f k safe refused = record { at = λ d p. by_fate d.files d.fate p }
  where
    step :
        (s : F) (fate rest : List Bool) (x : F × Result ErrorKind A)
        → x ≡ (s, err k)
        → P s
        → (fate ≡ [] → rest ≡ [])
        → Post I
            (λ o s. (o ≡ none) × P s)
            fate
            (caught (record { files = x.0; fate = rest }, outcome x.1))
    step s fate rest x e p l =
        subst
          (λ x.
            Post I (λ o s. (o ≡ none) × P s) fate
              (caught (record { files = x.0; fate = rest }, outcome x.1)))
          (sym e) ((refl, p), l)

    by_fate :
        (s : F) (fate : List Bool)
        → P s
        → Post I
            (λ o s. (o ≡ none) × P s)
            fate
            (attempt (effect f) (record { files = s; fate = fate }))
    by_fate s [] p = step s [] [] (f s) (refused s p) p (λ e. e)
    by_fate s (true ∷ rest) p = step s (true ∷ rest) rest (f s) (refused s p) p (λ e. cc)
    by_fate s (false ∷ rest) p = (safe s p, (λ e. cc, refl))

-- An action whose value is known, and what follows it.
pub Triple-known :
    {F A B : Type 0} {I P Q : F → Type 0} {R : B → F → Type 0} (m : Action F A) (f : A → Action F B)
    {a : A}
    → Triple I P m (λ x s. (x ≡ a) × Q s)
    → Triple I Q (f a) R
    → Triple I P (m >>= f) R
Triple-known {F} {A} {B} {I} {P} {Q} {R} m f {a} tm tf =
    Triple-bind m f tm λ x. Triple-given λ e. subst (λ z. Triple I Q (f z) R) (sym e) tf

-- What follows an attempt that does not fail.
pub Triple-attempted :
    {F A B : Type 0} {I P : F → Type 0} {Q : A → F → Type 0} {R : B → F → Type 0} (m : Action F A)
    (f : Option A → Action F B)
    → Triple I P m Q
    → ((a : A) → Triple I (Q a) (f (some a)) R)
    → Triple I P (attempt m >>= f) R
Triple-attempted {F} {A} {B} {I} {P} {Q} {R} m f tm tf =
    Triple-bind (attempt m) f (Triple-attempt tm) next
  where
    next : (o : Option A) → Triple I (Caught Q o) (f o) R
    next none = record { at = λ d p. absurd p }
    next (some a) = tf a
