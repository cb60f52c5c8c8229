-- ===== src/Admin/QuotaRecovery.antt =====
-- frontend/src/hooks/useQuotaMutationRecovery.ts: the quota change of a user that may be unfinished,
-- kept in the session's storage. `JSON.parse` and `JSON.stringify` belong to the platform and are
-- parameters, with the raw texts as they make them; the storage may be blocked, and then it neither
-- gives nor takes anything.
pub mod Laws
mod Tests
use query_craft.Common.{
  ℕ, String, Bool, true, false, not, ◌&&◌, ◌||◌, List, [], ◌∷◌, Option, none, some, leb, ◌==◌,
  if◌then◌else◌, str_eq, lookup, insert,
}
use query_craft.Common.Int.{ℤ, pos}
use query_craft.Common.Value.{
  Value, null, int, real, str, obj, plain, field, end, get, is_int, is_str, is_object, as_str,
}

abbrev max_safe_integer : ℕ
max_safe_integer = 9_007_199_254_740_991

-- Minus zero, a double that is no integer of the model, passes as zero does.
unfoldable pub is_quota_limit : Value → Bool
is_quota_limit null = true
is_quota_limit (int (pos n)) = leb n max_safe_integer
is_quota_limit (real bits) = bits == 0x8000000000000000
is_quota_limit v = false

unfoldable pub is_upsert_data : Value → Bool
unfolding is_quota_limit
is_upsert_data v =
    is_object v
    && is_quota_limit (get "daily_query_limit" v)
    && is_quota_limit (get "daily_execution_limit" v)
    && is_quota_limit (get "daily_export_limit" v)

abbrev is_named : Option String → Bool
is_named none = false
is_named (some s) = not (str_eq s "")

unfoldable pub is_recovery_operation : Value → Bool
unfolding is_upsert_data
is_recovery_operation v =
    is_object v
    && is_named (as_str (get "roleId" v))
    && (is_str "delete" (get "kind" v)
        || (is_str "upsert" (get "kind" v) && is_upsert_data (get "data" v)))

-- `StoredRecovery`.
abbrev pub stored : Value → Value
stored operation = obj plain (field "version" (int (pos 1)) (field "operation" operation end))

module _ {Raw : Type 0} (parse : Raw → Option Value) (stringify : Value → Raw) where
  -- The keys are those of the users: the prefix of the storage's keys is left out.
  pub record Storage : Type 0 where
    pub blocked : Bool
    pub entries : List (String × Raw)

  abbrev pub accepted : Value → Option Value
  accepted v =
      if is_int 1 (get "version" v) && is_recovery_operation (get "operation" v)
      then some (get "operation" v)
      else none

  abbrev parsed : Option Value → Option Value
  parsed none = none
  parsed (some v) = accepted v

  abbrev pub read_raw : Option Raw → Option Value
  read_raw none = none
  read_raw (some raw) = parsed (parse raw)

  -- A user that is missing has no entry, nor has one with no name.
  unfoldable pub read_recovery : Option String → Storage → Option Value
  read_recovery none s = none
  read_recovery (some user) s =
      if str_eq user "" || s.blocked then none else read_raw (lookup user s.entries)

  abbrev without_entry : String → List (String × Raw) → List (String × Raw)
  without_entry user [] = []
  without_entry user ((u, raw) ∷ es) =
      let rest = without_entry user es in if str_eq u user then rest else (u, raw) ∷ rest

  abbrev entries_with : String → Option Value → List (String × Raw) → List (String × Raw)
  entries_with user none es = without_entry user es
  entries_with user (some operation) es = insert user (stringify (stored operation)) es

  unfoldable pub write_recovery : Option String → Option Value → Storage → Storage
  write_recovery none operation s = s
  write_recovery (some user) operation s =
      if str_eq user "" || s.blocked
      then s
      else record s { entries = entries_with user operation s.entries }

  -- The hook: its argument, what it restored for it, and its state.
  pub record Recovery : Type 0 where
    pub user_id : Option String
    pub restored : Option Value
    pub state_user : Option String
    pub state_operation : Option Value
    pub storage : Storage

  unfoldable pub mount : Option String → Storage → Recovery
  mount user s = record {
    user_id = user;
    restored = read_recovery user s;
    state_user = user;
    state_operation = read_recovery user s;
    storage = s;
  }

  -- The hook is called with another user.
  unfoldable pub change_user : Option String → Recovery → Recovery
  change_user user r = record r { user_id = user; restored = read_recovery user r.storage }

  abbrev is_same : Option String → Option String → Bool
  is_same none none = true
  is_same (some a) (some b) = str_eq a b
  is_same a b = false

  unfoldable pub current_operation : Recovery → Option Value
  current_operation r = if is_same r.state_user r.user_id then r.state_operation else r.restored

  unfoldable pub remember : Value → Recovery → Recovery
  remember operation r = record r {
    state_user = r.user_id;
    state_operation = some operation;
    storage = write_recovery r.user_id (some operation) r.storage;
  }

  unfoldable pub clear : Recovery → Recovery
  clear r = record r {
    state_user = r.user_id;
    state_operation = none;
    storage = write_recovery r.user_id none r.storage;
  }
