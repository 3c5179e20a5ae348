-- ===== src/Machine.antt =====
-- A process on durable files that can crash: actions, one file operation at a time, on a state `F` of
-- the files. Each operation asks `fate` first: `true` lets it take place, `false` is a crash of the
-- process before it, and once `fate` is used up every operation takes place. The files after a crash
-- are what the next run finds. An operation that takes place is durable.
pub mod CrashLogic
use quarters.Prelude.{Option, Bool, none, some, List, [], ◌∷◌, if◌then◌else◌, Result, ok, err}
use quarters.Error.{ErrorKind}

pub record Disk (F : Type 0) : Type 0 where
  pub files : F
  pub fate : List Bool

-- Why an action does not go on: the process is gone, or the code returns an error.
pub data Stop : Type 0 where
  crashed : Stop
  failed : ErrorKind → Stop

abbrev pub outcome : {A : Type 0} → Result ErrorKind A → Result Stop A
outcome (ok a) = ok a
outcome (err k) = err (failed k)

abbrev pub Action : Type 0 → Type 0 → Type 0
Action F A = Disk F → Disk F × Result Stop A

abbrev pub return : {F A : Type 0} → A → Action F A
return a d = (d, ok a)

infixl 5 ◌>>=◌ ◌>>◌
unfoldable pub ◌>>=◌ : {F A B : Type 0} → Action F A → (A → Action F B) → Action F B
◌>>=◌ m f d = let (d', r) = m d in elim r [ ok a ↦ f a d' | err k ↦ (d', err k) ]

abbrev pub ◌>>◌ : {F B : Type 0} → Action F (Unit {0}) → Action F B → Action F B
m >> k = m >>= λ _. k

-- `match action { Ok(..) => .., Err(..) => .. }`: an error as a value. A crash is not caught.
abbrev pub caught : {F A : Type 0} → Disk F × Result Stop A → Disk F × Result Stop (Option A)
caught (d, ok a) = (d, ok (some a))
caught (d, err (failed k)) = (d, ok none)
caught (d, err crashed) = (d, err crashed)

unfoldable pub attempt : {F A : Type 0} → Action F A → Action F (Option A)
attempt m d = caught (m d)

abbrev pub lift : {F A : Type 0} → Result ErrorKind A → Action F A
lift r d = (d, outcome r)

-- One file operation, `f`, subject to `fate`.
unfoldable pub effect : {F A : Type 0} → (F → F × Result ErrorKind A) → Action F A
effect f d = elim d.fate [
  | [] ↦ (let (after, r) = f d.files in (record d { files = after }, outcome r))
  | can ∷ rest ↦
      if can
      then (let (after, r) = f d.files in (record { files = after; fate = rest }, outcome r))
      else (record d { fate = rest }, err crashed)
]
