-- ===== src/Admin/QuotaRecovery/Tests.antt =====
-- A platform whose raw texts are the values themselves, and an operation that it remembers.
use query_craft.Common.{◌≡◌, refl, true, false, [], ◌∷◌, Option, some, none, arith, eq_iff}
use query_craft.Common.Value.{Value, obj, plain, field, str, end, int, null}
use query_craft.Common.Int.{pos}
use query_craft.Admin.QuotaRecovery.{
  Storage, Recovery, is_recovery_operation, is_quota_limit, mount, current_operation, remember,
  read_recovery, stored,
}
use query_craft.Admin.QuotaRecovery.Laws.{remember_lem}

abbrev parse : Value → Option Value
parse v = some v

abbrev stringify : Value → Value
stringify v = v

abbrev upsert : Value
upsert = obj plain (
    field "kind" (str "upsert") (
      field "roleId" (str "r1") (
        field "data"
          (obj plain (
            field "daily_query_limit" (int (pos 10))
              (field "daily_execution_limit" null (field "daily_export_limit" null end))))
          end)))

abbrev empty : Storage parse stringify
empty = record { blocked = false; entries = [] }

abbrev opened : Recovery parse stringify
opened = record {
  user_id = some "u1";
  restored = none;
  state_user = some "u1";
  state_operation = none;
  storage = empty;
}

is_operation : is_recovery_operation upsert ≡ true
unfolding is_recovery_operation is_quota_limit
is_operation = refl

remember_example :
    (current_operation parse stringify (remember parse stringify upsert opened) ≡ some upsert)
    × (current_operation parse stringify
          (mount parse stringify (some "u1") (remember parse stringify upsert opened).storage)
        ≡ some upsert)
remember_example =
    remember_lem parse stringify opened "u1" upsert refl (ground (arith, eq_iff "u1" "")) refl refl
      is_operation

abbrev kept : Storage parse stringify
kept = record { blocked = false; entries = ("u1", stored upsert) ∷ [] }

is_read : read_recovery parse stringify (some "u1") kept ≡ some upsert
unfolding read_recovery is_recovery_operation is_quota_limit
is_read = refl
