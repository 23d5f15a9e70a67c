-- ===== src/Warnings/LeftOut.antt =====
-- The total of the rows that were left out.
use quickhouse.Prelude.{
  ℕ, ◌+◌, ◌≡◌, List, [], ◌∷◌, arith, ◌==◌, ==→eq, if◌then◌else◌, Bool-cases, inl, inr, ◌&&◌,
}
use quickhouse.Prelude.Text.{Text, text_eq}
use quickhouse.Kinds.{WarningKind, kind_eq}
use quickhouse.Kinds.Names.{kind_eq→eq}
use quickhouse.Buffer.{NullRows}
use quickhouse.Warnings.{Warnings, bump, tally_null_rows, left_out, left_out_total}

-- What an entry adds to the rows that were left out.
abbrev pub unwritten : WarningKind → ℕ → ℕ
unwritten kind n = if kind_eq kind WarningKind.null_defaulted then 0 else n

left_out-bump :
    (tally : List NullRows) (kind : WarningKind) (column : Text) (n : ℕ)
    → left_out (bump tally kind column n) ≡ left_out tally + unwritten kind n
unfolding left_out bump
left_out-bump [] kind column n = omega arith
left_out-bump ((k, c, count) ∷ tally) kind column n =
    elim (Bool-cases (kind_eq k kind && text_eq c column)) [
      | inl e ↦
          let same : k ≡ kind = kind_eq→eq k kind (ground arith) in rw e (rw same (ground arith))
      | inr e ↦ rw e (let ih = left_out-bump tally kind column n in omega arith)
    ]

pub left_out_total-tally_null_rows :
    (ws : Warnings) (kind : WarningKind) (column : Text) (n : ℕ)
    → left_out_total (tally_null_rows ws kind column n) ≡ left_out_total ws + unwritten kind n
unfolding left_out_total tally_null_rows
left_out_total-tally_null_rows ws kind column n = elim (Bool-cases (n == 0)) [
  | inl e ↦ rw e (let z = ==→eq n 0 e in ground arith)
  | inr e ↦ rw e (left_out-bump ws.null_rows kind column n)
]
