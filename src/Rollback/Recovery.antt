-- ===== src/Rollback/Recovery.antt =====
-- The recovery of an interrupted rollback: the action that a marker and the entries beside it call
-- for, and its execution.
use quarters.Prelude.{
  Option, some, none, ℕ, zero, suc, ◌+◌, Bool, true, false, ◌&&◌, ◌||◌, not, List, [], ◌∷◌,
  if◌then◌else◌, ◌==◌, Bytes, nat_eq, bytes_eq, Result, ok, err, reject_if,
}
use quarters.Error.{ErrorKind, corrupt_state}
use quarters.Rollback.Model.{
  SpaceTree, RollbackState, prepared, retired, published, RollbackMarker, state_beq, matches,
  marker_name, temporary_name, staging_name, retired_name,
}
use quarters.Rollback.Disk.{
  attempt, Action, return, ◌>>=◌, ◌>>◌, effect, entry_exists, sync_directory, rename,
  retire_recovery_path, remove_file, read_marker, open_space, lift,
}
use quarters.Rollback.Publish.{replace_marker}

pub data RollbackRecoveryAction : Type 0 where
  abort restore_old complete_new : RollbackRecoveryAction

-- The table of `recovery_action`: state, and whether target, staging and retired exist.
unfoldable pub recovery_table :
    RollbackState → Bool → Bool → Bool → Result ErrorKind RollbackRecoveryAction
recovery_table prepared true true false = ok abort
recovery_table prepared false true true = ok restore_old
recovery_table retired false true true = ok restore_old
recovery_table retired true false true = ok complete_new
recovery_table published true false true = ok complete_new
recovery_table published true false false = ok complete_new
recovery_table _ _ _ _ = err corrupt_state

-- The space whose identity the marker has to match.
unfoldable pub open_for : RollbackRecoveryAction → RollbackMarker → Action SpaceTree
open_for restore_old m = open_space m.retired_entry m.target
open_for abort m = open_space m.target m.target
open_for complete_new m = open_space m.target m.target

unfoldable pub recovery_action : RollbackMarker → Action RollbackRecoveryAction
unfolding ◌>>=◌ open_for
recovery_action m = do
  target ← entry_exists m.target
  staging ← entry_exists m.staging_entry
  old ← entry_exists m.retired_entry
  action ← lift (recovery_table m.state target staging old)
  found ← open_for action m
  lift (reject_if (not (matches m.target_identity found.identity)) corrupt_state)
  return action

-- `validate_marker_components`.
unfoldable pub validate_marker_components : RollbackMarker → Bytes → Result ErrorKind (Unit {0})
validate_marker_components m path_id =
    if m.transaction_id == path_id
      && m.staging_entry == staging_name m.transaction_id
      && m.retired_entry == retired_name m.transaction_id
    then ok tt
    else err corrupt_state

-- `transition_marker`.
unfoldable pub transition_marker : Bytes → RollbackMarker → RollbackState → Action (Unit {0})
transition_marker id m state =
    if state_beq m.state state then return tt else replace_marker id (record m { state = state })

-- `remove_marker_durable`.
unfoldable pub remove_marker_durable : Bytes → Action (Unit {0})
unfolding ◌>>=◌
remove_marker_durable id = do remove_file (marker_name id); sync_directory

-- The three ways to finish; each returns how many trees it retired to the trash.
unfoldable pub recover_abort : Bytes → RollbackMarker → Action ℕ
unfolding ◌>>=◌
recover_abort id m = do remove_marker_durable id; retire_recovery_path m.staging_entry; return 1

unfoldable pub recover_restore_old : Bytes → RollbackMarker → Action ℕ
unfolding ◌>>=◌
recover_restore_old id m = do
  transition_marker id m prepared
  rename m.retired_entry m.target
  sync_directory
  remove_marker_durable id
  retire_recovery_path m.staging_entry
  return 1

unfoldable pub retire_old : RollbackMarker → Bool → Action ℕ
unfolding ◌>>=◌
retire_old m true = do
  retire_recovery_path m.retired_entry
  sync_directory
  sync_directory
  return 1
retire_old m false = return 0

unfoldable pub recover_complete_new : Bytes → RollbackMarker → Action ℕ
unfolding ◌>>=◌ retire_old
recover_complete_new id m = do
  transition_marker id m published
  old ← entry_exists m.retired_entry
  count ← retire_old m old
  remove_marker_durable id
  return count

-- `apply_recovery_plan`.
unfoldable pub apply_recovery_plan : Bytes → RollbackMarker → RollbackRecoveryAction → Action ℕ
apply_recovery_plan id m abort = recover_abort id m
apply_recovery_plan id m restore_old = recover_restore_old id m
apply_recovery_plan id m complete_new = recover_complete_new id m

-- `load_recovery_inventory`, for the marker of transaction `id`: its plan, or `none` where the source
-- lists an issue, which is kept for people and leaves the transaction alone.
unfoldable pub inspect_marker : Bytes → Action (RollbackMarker × RollbackRecoveryAction)
unfolding ◌>>=◌
inspect_marker id = do
  m ← read_marker (marker_name id)
  lift (validate_marker_components m id)
  action ← recovery_action m
  return (m, action)

unfoldable pub load_plan : Bytes → Action (Option (RollbackMarker × RollbackRecoveryAction))
unfolding attempt
load_plan id = attempt (inspect_marker id)

abbrev pub run_plan : Bytes → Option (RollbackMarker × RollbackRecoveryAction) → Action ℕ
run_plan id none = return 0
run_plan id (some (m, action)) = apply_recovery_plan id m action

-- What `recover_rollbacks` does for the marker of transaction `id`.
unfoldable pub recover_transaction : Bytes → Action ℕ
unfolding ◌>>=◌
recover_transaction id = do plan ← load_plan id; run_plan id plan

-- `reclaim_marker_temporaries`, for the temporary file of transaction `id`.
unfoldable pub reclaim_marker_temporary : Bytes → Action (Unit {0})
unfolding ◌>>=◌
reclaim_marker_temporary id = do
  exists ← entry_exists (temporary_name id)
  if exists then (do remove_file (temporary_name id); sync_directory) else return tt

-- `reclaim_orphan_staging`, for the staging tree of transaction `id`; `held` says that another process
-- holds its creation lock.
unfoldable pub reclaim_orphan_staging : Bytes → Bool → Action ℕ
unfolding ◌>>=◌
reclaim_orphan_staging id held = do
  present ← entry_exists (staging_name id)
  owned ← entry_exists (marker_name id)
  if not present || owned || held
      then return 0
      else (do retire_recovery_path (staging_name id); return 1)

-- The listing of the directory finds the marker of `id` or does not.
unfoldable pub recover_marked : Bytes → Action ℕ
unfolding ◌>>=◌
recover_marked id = do
  found ← entry_exists (marker_name id)
  if found then recover_transaction id else return 0

-- `remove_tree_restoring_owner_access` of the trees retired in this run, the oldest first.
pub remove_index : {A : Type 0} → ℕ → List A → List A
remove_index i [] = []
remove_index zero (x ∷ xs) = xs
remove_index (suc i) (x ∷ xs) = x ∷ remove_index i xs

unfoldable pub remove_reclaimed : ℕ → Action (Unit {0})
unfolding ◌>>=◌
remove_reclaimed zero = return tt
remove_reclaimed (suc k) = do
  effect (λ s. (record s { trash = remove_index k s.trash }, ok tt))
  remove_reclaimed k

-- `recover_rollbacks` as far as it concerns transaction `id`.
unfoldable pub recover_rollback : Bytes → Bool → Action (Unit {0})
unfolding ◌>>=◌
recover_rollback id held = do
  sync_directory
  reclaim_marker_temporary id
  finished ← recover_marked id
  orphans ← reclaim_orphan_staging id held
  sync_directory
  sync_directory
  remove_reclaimed (finished + orphans)
  sync_directory
