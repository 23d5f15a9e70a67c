-- ===== src/Keyset/Tests.antt =====
-- Tests of `integer_literal` and `keyset_predicate`.
use quickhouse.Prelude.{◌≡◌, refl, false, some, pos, negsuc}
use quickhouse.Prelude.Text.{codes, show_ℤ}
use quickhouse.Sql.{render, both, gt, le}
use quickhouse.Samples.{id_col}
use quickhouse.Keyset.{upper_bound, integer_literal, keyset_predicate, is_bare_integer}
use quickhouse.Keyset.Literals.{IsInteger, integer_literal_safe, keyset_predicate_window}

integer_literal_injection : integer_literal (codes "1; DROP TABLE t") ≡ codes "-9223372036854775808"
unfolding integer_literal is_bare_integer show_ℤ
integer_literal_injection = refl

integer_literal_signed : integer_literal (codes "-42") ≡ codes "-42"
unfolding integer_literal is_bare_integer
integer_literal_signed = refl

integer_literal_safe_example :
    IsInteger (integer_literal (codes "1 OR 1=1"))
    × (IsInteger (codes "1 OR 1=1") → integer_literal (codes "1 OR 1=1") ≡ codes "1 OR 1=1")
integer_literal_safe_example = integer_literal_safe (codes "1 OR 1=1")

keyset_predicate_window_example :
    keyset_predicate (record {
      col_quoted = id_col;
      cursor = some (show_ℤ (negsuc 4));
      bound = upper_bound (show_ℤ (pos 10));
    })
    ≡ some (render (both (gt id_col (negsuc 4)) (le id_col (pos 10))))
keyset_predicate_window_example = keyset_predicate_window id_col (negsuc 4) (pos 10)

date_is_not_bare : is_bare_integer (codes "2024-01-01") ≡ false
unfolding is_bare_integer
date_is_not_bare = refl
