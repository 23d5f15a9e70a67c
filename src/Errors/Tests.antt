-- ===== src/Errors/Tests.antt =====
-- Tests of the errors that are worth a retry.
use quickhouse.Prelude.{◌≡◌, refl, true, false, none, some, [], ◌∷◌}
use quickhouse.Prelude.Text.{codes}
use quickhouse.Errors.{
  ErrorKind, PgError, EtlError, MySqlError, is_transient_source, pg_error_is_transient,
  mysql_error_is_transient,
}
use quickhouse.Errors.Transient.{in_contexts, NeverRetried, is_transient_source-in_contexts}

abbrev conflict : PgError
conflict = record { code = some (codes "40001"); is_closed = false; causes = [] }

abbrev reset : PgError
reset = record {
  code = none;
  is_closed = false;
  causes = none ∷ some ErrorKind.connection_reset ∷ [];
}

conflict_retried : is_transient_source (EtlError.postgres conflict) ≡ true
unfolding is_transient_source pg_error_is_transient
conflict_retried = refl

reset_retried : is_transient_source (EtlError.postgres reset) ≡ true
unfolding is_transient_source pg_error_is_transient
reset_retried = refl

deadlock_retried : is_transient_source (EtlError.my_sql (MySqlError.server 1213)) ≡ true
unfolding is_transient_source mysql_error_is_transient
deadlock_retried = refl

is_transient_source-in_contexts_example :
    let places = codes "column 'amount'" ∷ codes "orders -> analytics.orders" ∷ [] in
    let e = EtlError.decode (codes "bad value") in
    (is_transient_source (in_contexts places e) ≡ is_transient_source e)
    × (NeverRetried e → is_transient_source (in_contexts places e) ≡ false)
is_transient_source-in_contexts_example =
    is_transient_source-in_contexts
      (codes "column 'amount'" ∷ codes "orders -> analytics.orders" ∷ [])
      (EtlError.decode (codes "bad value"))
