-- ===== src/Discovery/Summary.antt =====
-- `report` of crates/quarters-core/src/discovery/report.rs: what is told of two scans. The fixed texts
-- of a report, its space, child and limits are passed on as they are and left out.
use quarters.Prelude.{
  ℕ, ◌≡◌, refl, sym, ap, subst, ◌≢◌, ◌⊎◌, inl, inr, Bool, true, false, ◌&&◌, ◌||◌, not, Option,
  none, some, List, [], ◌∷◌, ◌++◌, arith, if◌then◌else◌, is_some, saturating_add, nat_eq, bytes_eq,
}
use quarters.Discovery.{DiscoverySelector, home, runtime}
use quarters.Discovery.Report.{
  DiscoveryClassCounts, total, saturating_add_assign, DiscoveryDelta, PerRoot, at_selector,
  same_roots, Snapshot, diff,
}

pub record DiscoveryTotals : Type 0 where
  pub total_created : ℕ
  pub total_modified : ℕ
  pub total_replaced : ℕ
  pub total_deleted : ℕ

abbrev pub totals_of : DiscoveryDelta → DiscoveryTotals
totals_of delta = record {
  total_created = total delta.created;
  total_modified = total delta.modified;
  total_replaced = total delta.replaced;
  total_deleted = total delta.deleted;
}

-- The texts of `state`.
pub data ReportState : Type 0 where
  post_scan_failed : ReportState
  state_bounds_exceeded : ReportState
  state_root_identity_changed : ReportState
  state_observation_gap : ReportState
  measured : ReportState

pub record DiscoveryRootReport : Type 0 where
  pub selector : DiscoverySelector
  pub entries_pre : ℕ
  pub entries_post : Option ℕ
  pub complete_pre : Bool
  pub complete_post : Option Bool
  pub bounds_exceeded_pre : Bool
  pub bounds_exceeded_post : Option Bool

pub record DiscoveryObservation : Type 0 where
  pub unreadable_directories : ℕ
  pub unreadable_classes : DiscoveryClassCounts
  pub unstable_entries : ℕ
  pub foreign_owned : ℕ
  pub non_local_filesystems : ℕ
  pub root_identity_changed : Bool
  pub metadata_errors : ℕ
  pub entry_key_collisions : ℕ

pub record DiscoveryReport : Type 0 where
  pub state : ReportState
  pub complete : Bool
  pub roots : List DiscoveryRootReport
  pub delta : Option DiscoveryDelta
  pub totals : Option DiscoveryTotals
  pub observation : DiscoveryObservation

abbrev unwrap_or : Bool → Option Bool → Bool
unwrap_or default none = default
unwrap_or default (some b) = b

-- A field of the scan after the run, where there is one.
abbrev post_root :
    {A : Type 0} → DiscoverySelector → (Snapshot → PerRoot A) → Option Snapshot → Option A
post_root s field none = none
post_root s field (some post) = at_selector s (field post)

abbrev pub is_some_and : (Snapshot → Bool) → Option Snapshot → Bool
is_some_and test none = false
is_some_and test (some post) = test post

abbrev map_or_zero : (Snapshot → ℕ) → Option Snapshot → ℕ
map_or_zero field none = 0
map_or_zero field (some post) = field post

abbrev pub root_report :
    Snapshot → Option Snapshot → DiscoverySelector → Option ℕ → List DiscoveryRootReport
root_report pre post s none = []
root_report pre post s (some count) =
    record {
      selector = s;
      entries_pre = count;
      entries_post = post_root s (λ p. p.roots) post;
      complete_pre = unwrap_or false (at_selector s pre.root_complete);
      complete_post = post_root s (λ p. p.root_complete) post;
      bounds_exceeded_pre = unwrap_or true (at_selector s pre.root_bounds_exceeded);
      bounds_exceeded_post = post_root s (λ p. p.root_bounds_exceeded) post;
    }
    ∷ []

abbrev pub unreadable_of : Snapshot → Option Snapshot → DiscoveryClassCounts
unreadable_of pre none = pre.unreadable_classes
unreadable_of pre (some post) = saturating_add_assign pre.unreadable_classes post.unreadable_classes

abbrev pub observation_of : Snapshot → Option Snapshot → Bool → DiscoveryObservation
observation_of pre post changed = record {
  unreadable_directories =
      saturating_add pre.unreadable_directories (map_or_zero (λ p. p.unreadable_directories) post);
  unreadable_classes = unreadable_of pre post;
  unstable_entries =
      saturating_add pre.unstable_entries (map_or_zero (λ p. p.unstable_entries) post);
  foreign_owned = saturating_add pre.foreign_owned (map_or_zero (λ p. p.foreign_owned) post);
  non_local_filesystems =
      saturating_add pre.non_local_filesystems (map_or_zero (λ p. p.non_local_filesystems) post);
  root_identity_changed = changed;
  metadata_errors = saturating_add pre.metadata_errors (map_or_zero (λ p. p.metadata_errors) post);
  entry_key_collisions =
      saturating_add pre.entry_key_collisions (map_or_zero (λ p. p.entry_key_collisions) post);
}

-- The delta, unless something forbids it.
abbrev pub delta_unless : Bool → Snapshot → Option Snapshot → Option DiscoveryDelta
delta_unless forbidden pre none = none
delta_unless forbidden pre (some post) = if forbidden then none else some (diff pre post)

abbrev pub state_of : Bool → Bool → Bool → Bool → ReportState
state_of post_failed bounds_exceeded root_changed observation_gap =
    if post_failed
    then post_scan_failed
    else if bounds_exceeded
    then state_bounds_exceeded
    else if root_changed
    then state_root_identity_changed
    else if observation_gap
    then state_observation_gap
    else measured

unfoldable pub report : Snapshot → Option Snapshot → DiscoveryReport
report pre post =
    let bounds_exceeded = pre.bounds_exceeded || is_some_and (λ p. p.bounds_exceeded) post in
    let root_changed =
      is_some_and (λ p. not (same_roots pre.root_identities p.root_identities)) post in
    let observation_gap =
      not pre.complete || is_some_and (λ p. not p.complete) post || root_changed in
    let delta = delta_unless (bounds_exceeded || observation_gap) pre post in
    record {
      state = state_of (not (is_some post)) bounds_exceeded root_changed observation_gap;
      complete =
          is_some_and (λ p. pre.complete && p.complete && not bounds_exceeded && not root_changed)
            post;
      roots =
          root_report pre post home pre.roots.at_home
          ++ root_report pre post runtime pre.roots.at_runtime;
      delta = delta;
      totals = elim delta [ none ↦ none | some changes ↦ some (totals_of changes) ];
      observation = observation_of pre post root_changed;
    }

-- Both scans saw everything within their bounds, of the same roots.
abbrev pub IsMeasured : Snapshot → Snapshot → Type 0
IsMeasured pre post =
    (pre.complete ≡ true)
    × (post.complete ≡ true)
    × (pre.bounds_exceeded ≡ false)
    × (post.bounds_exceeded ≡ false)
    × (same_roots pre.root_identities post.root_identities ≡ true)

decided :
    (a b c d e : Bool)
    → ((a ≡ true) × (b ≡ true) × (c ≡ false) × (d ≡ false) × (e ≡ true))
      ⊎ (¬ ((a ≡ true) × (b ≡ true) × (c ≡ false) × (d ≡ false) × (e ≡ true)))
decided a b c d e = ground arith

-- A report shows a delta exactly if there is a second scan, both scans are complete and within their
-- bounds and the roots are the same; the delta is then that of the two scans, the report calls
-- itself complete and measured, and otherwise it calls itself neither.
pub report-Measured :
    (pre : Snapshot) (post : Option Snapshot)
    → ((q : Snapshot) × (post ≡ some q)
        × IsMeasured pre q
        × ((report pre post).delta ≡ some (diff pre q))
        × ((report pre post).complete ≡ true)
        × ((report pre post).state ≡ measured))
      ⊎ (((q : Snapshot) → post ≡ some q → ¬ IsMeasured pre q)
          × ((report pre post).delta ≡ none)
          × ((report pre post).totals ≡ none)
          × ((report pre post).complete ≡ false)
          × ((report pre post).state ≢ measured))
unfolding report
report-Measured pre none = inr ((λ q e. absurd (ground arith)), refl, refl, refl, ground arith)
report-Measured pre (some q) =
    elim (decided pre.complete q.complete pre.bounds_exceeded q.bounds_exceeded
      (same_roots pre.root_identities q.root_identities)) [
        | inl m ↦ inl (q, refl, m, ground arith, ground arith, ground arith)
        | inr n ↦ inr (
          (λ p e m. n (
              subst (λ r. IsMeasured pre r) (sym (ap (λ o. elim o [ none ↦ q | some r ↦ r ]) e))
                m)),
          ground arith,
          ground arith,
          ground arith,
          ground arith,
        )
      ]
