-- ===== src/Admin/QuotaRecovery/Laws.antt =====
-- What is remembered is found again, and nothing malformed is.
use query_craft.Common.{
  ◌≡◌, ◌≢◌, String, true, false, Option, none, some, arith, lookup, lookup-insert, str_eq_self,
  eq_iff, ap, ◌∙◌,
}
use query_craft.Common.Value.{Value}
use query_craft.Admin.QuotaRecovery.{
  is_recovery_operation, stored, Storage, read_raw, read_recovery, write_recovery, Recovery, mount,
  current_operation, remember,
}

-- Reading back an entry needs the parser and the printer to agree on it.
module _ {Raw : Type 0} (parse : Raw → Option Value) (stringify : Value → Raw) where
  read_raw-stored :
      (operation : Value)
      → parse (stringify (stored operation)) ≡ some (stored operation)
      → is_recovery_operation operation ≡ true
      → read_raw parse stringify (some (stringify (stored operation))) ≡ some operation
  read_raw-stored operation p h = ground (arith, p, h)

  read_recovery-write_recovery :
      (user : String) (operation : Value) (s : Storage parse stringify)
      → user ≢ ""
      → s.blocked ≡ false
      → parse (stringify (stored operation)) ≡ some (stored operation)
      → is_recovery_operation operation ≡ true
      → read_recovery parse stringify
          (some user)
          (write_recovery parse stringify (some user) (some operation) s)
        ≡ some operation
  unfolding read_recovery write_recovery
  read_recovery-write_recovery user operation s named free p h = ground (
    arith,
    lookup-insert user user (stringify (stored operation)) s.entries,
    str_eq_self user,
    eq_iff user "",
    read_raw-stored operation p h,
  )

  read_raw-IsOperation :
      (raw : Option Raw) (operation : Value)
      → read_raw parse stringify raw ≡ some operation
      → is_recovery_operation operation ≡ true
  read_raw-IsOperation raw operation h = ground (arith, h)

  mount-current :
      (user : String) (s : Storage parse stringify)
      → current_operation parse stringify (mount parse stringify (some user) s)
        ≡ read_recovery parse stringify (some user) s
  unfolding current_operation mount
  mount-current user s = ground (arith, str_eq_self user)

  -- A well-formed operation that is remembered for a named user, in a storage that is not blocked and
  -- whose texts are read as they were written, is the current one at once, and again after the hook
  -- is mounted anew for that user.
  pub remember_lem :
      (r : Recovery parse stringify) (user : String) (operation : Value)
      → r.user_id ≡ some user
      → user ≢ ""
      → r.storage.blocked ≡ false
      → parse (stringify (stored operation)) ≡ some (stored operation)
      → is_recovery_operation operation ≡ true
      → (current_operation parse stringify (remember parse stringify operation r) ≡ some operation)
        × (current_operation parse stringify
              (mount parse stringify (some user) (remember parse stringify operation r).storage)
            ≡ some operation)
  unfolding current_operation remember mount
  remember_lem r user operation u named free p h = (
    ground (arith, u, str_eq_self user),
    mount-current user (write_recovery parse stringify r.user_id (some operation) r.storage)
        ∙ ap
            (λ w.
              read_recovery parse stringify (some user)
                (write_recovery parse stringify w (some operation) r.storage))
            u
        ∙ read_recovery-write_recovery user operation r.storage named free p h,
  )

  -- Whatever the storage holds, an operation that is read from it is well-formed.
  pub read_recovery-IsOperation :
      (user : Option String) (s : Storage parse stringify) (operation : Value)
      → read_recovery parse stringify user s ≡ some operation
      → is_recovery_operation operation ≡ true
  unfolding read_recovery
  read_recovery-IsOperation none s operation h = absurd (ground (arith, h))
  read_recovery-IsOperation (some user) s operation h =
      ground (arith, h, read_raw-IsOperation (lookup user s.entries) operation)
