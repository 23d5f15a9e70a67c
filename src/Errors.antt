-- ===== src/Errors.antt =====
-- error.rs: the errors that the modelled code tells apart, and which of them are worth another
-- attempt at the transfer. What a client library shows of its own errors is data here: the SQLSTATE
-- of a server's error, whether the connection is closed, and the chain of causes, of which those
-- that are errors of input and output carry their kind.
pub mod Transient
pub mod Tests
use mathlib.Core.Sum.{inl-ne-inr}
use quickhouse.Prelude.{
  ℕ, ◌≡◌, refl, ◌⊎◌, inl, inr, Bool, true, false, ◌||◌, Option, none, some, List, [], ◌∷◌, ◌==◌,
  if◌then◌else◌,
}
use quickhouse.Prelude.Text.{Text, codes, text_eq}

-- `std::io::ErrorKind`, as far as it is matched on.
pub data ErrorKind : Type 0 where
  connection_reset connection_aborted broken_pipe unexpected_eof timed_out other_kind : ErrorKind

pub record PgError : Type 0 where
  pub code : Option Text
  pub is_closed : Bool
  pub causes : List (Option ErrorKind)

pub data MySqlError : Type 0 where
  server : ℕ → MySqlError
  io connection_closed other_error : MySqlError

pub data EtlError : Type 0 where
  postgres : PgError → EtlError
  my_sql : MySqlError → EtlError
  click_house http arrow decode config io_error internal other : Text → EtlError
  unsupported_type : Text → Text → Text → EtlError
  read_idle_timeout : Text → ℕ → EtlError
  cancelled : EtlError
  context : Text → EtlError → EtlError

unfoldable pub sqlstate_is_transient : Text → Bool
sqlstate_is_transient code = text_eq code (codes "40001") || text_eq code (codes "57014")

unfoldable pub kind_is_transient : ErrorKind → Bool
kind_is_transient other_kind = false
kind_is_transient _ = true

-- The first cause that is an error of input and output decides.
unfoldable pub causes_are_transient : List (Option ErrorKind) → Bool
unfolding kind_is_transient
causes_are_transient [] = false
causes_are_transient (none ∷ cs) = causes_are_transient cs
causes_are_transient (some k ∷ cs) = kind_is_transient k

abbrev pg_transient : Option Text → Bool → List (Option ErrorKind) → Bool
unfolding sqlstate_is_transient causes_are_transient
pg_transient (some code) closed causes = sqlstate_is_transient code
pg_transient none true causes = true
pg_transient none false causes = causes_are_transient causes

unfoldable pub pg_error_is_transient : PgError → Bool
unfolding sqlstate_is_transient causes_are_transient
pg_error_is_transient e = pg_transient e.code e.is_closed e.causes

unfoldable pub mysql_error_is_transient : MySqlError → Bool
mysql_error_is_transient (server code) =
    code == 1205 || code == 1213 || code == 1317 || code == 3024
mysql_error_is_transient io = true
mysql_error_is_transient connection_closed = true
mysql_error_is_transient other_error = false

unfoldable pub is_transient_source : EtlError → Bool
is_transient_source (postgres e) = pg_error_is_transient e
is_transient_source (my_sql e) = mysql_error_is_transient e
is_transient_source (context c e) = is_transient_source e
is_transient_source (read_idle_timeout scope secs) = true
is_transient_source _ = false

-- `?` on a `Result`.
infixl 5 ◌>>=◌
abbrev pub ◌>>=◌ : {A B : Type 0} → EtlError ⊎ A → (A → EtlError ⊎ B) → EtlError ⊎ B
inl e >>= f = inl e
inr a >>= f = f a

-- A chain that ends well, step by step.
pub chained :
    {A B : Type 0} (x : EtlError ⊎ A) (f : A → EtlError ⊎ B) (b : B)
    → (x >>= f) ≡ inr b
    → (a : A) × (x ≡ inr a) × (f a ≡ inr b)
chained (inl e) f b h = absurd (inl-ne-inr h)
chained (inr a) f b h = (a, refl, h)
