-- ===== src/Sql.antt =====
-- The WHERE fragments that the readers build, as trees with their text and their SQL meaning.
use quickhouse.Prelude.{
  Bool, true, false, Option, none, some, ◌&&◌, ◌++◌, ℤ, leb_ℤ, ltb_ℤ, ◌≡◌, refl, negsuc, pos,
}
use quickhouse.Prelude.Text.{Text, codes, show_ℤ}

pub data Cond : Type 0 where
  -- `{col} >= {n}`, `{col} <= {n}`, `{col} > {n}`, `{col} IS NULL`
  ge le gt : Text → ℤ → Cond
  is_null : Text → Cond
  -- `{l} AND {r}` and `({l}) AND ({r})`
  both conj : Cond → Cond → Cond

unfoldable pub render : Cond → Text
render (ge c n) = c ++ codes " >= " ++ show_ℤ n
render (le c n) = c ++ codes " <= " ++ show_ℤ n
render (gt c n) = c ++ codes " > " ++ show_ℤ n
render (is_null c) = c ++ codes " IS NULL"
render (both l r) = render l ++ codes " AND " ++ render r
render (conj l r) = codes "(" ++ render l ++ codes ") AND (" ++ render r ++ codes ")"

-- What a row holds in each column expression; `none` is NULL.
abbrev pub Row : Type 0
Row = Text → Option ℤ

-- A comparison with NULL selects nothing.
abbrev pub test : (ℤ → Bool) → Option ℤ → Bool
test p none = false
test p (some k) = p k

unfoldable pub holds : Cond → Row → Bool
holds (ge c n) row = test (λ k. leb_ℤ n k) (row c)
holds (le c n) row = test (λ k. leb_ℤ k n) (row c)
holds (gt c n) row = test (λ k. ltb_ℤ n k) (row c)
holds (is_null c) row = elim (row c) [ none ↦ true | some k ↦ false ]
holds (both l r) row = holds l row && holds r row
holds (conj l r) row = holds l row && holds r row

render_example :
    render (both (ge (codes "`id`") (negsuc 4)) (le (codes "`id`") (pos 10)))
    ≡ codes "`id` >= -5 AND `id` <= 10"
unfolding render show_ℤ
render_example = refl
