-- ===== src/Csv/Layout.antt =====
-- When a run may add parts to a folder.
use quickhouse.Prelude.{
  ◌≡◌, ◌≢◌, refl, ap, sym, ◌↔◌, Bool, true, false, Option, none, some, List, [], ◌∷◌, ◌++◌, arith,
  ◌==◌, ==→eq, ==_iff, if◌then◌else◌,
}
use quickhouse.Prelude.Text.{Text, codes, text_eq→eq, text_eq_refl}
use quickhouse.Csv.Folder.{
  Manifest, CsvDestConfig, label, names_of, same_names, same_bool, same_label, not_among, listed_as,
  order_as, column_differences, layout_differences,
}

same_names→eq : (xs ys : List Text) → same_names xs ys ≡ true → xs ≡ ys
same_names→eq [] [] h = refl
same_names→eq [] (y ∷ ys) h = cc
same_names→eq (x ∷ xs) [] h = cc
same_names→eq (x ∷ xs) (y ∷ ys) h = ground (arith, text_eq→eq x y, same_names→eq xs ys)

same_names_refl : (xs : List Text) → same_names xs xs ≡ true
same_names_refl [] = refl
same_names_refl (x ∷ xs) = rw (text_eq_refl x) (same_names_refl xs)

same_bool→eq : (a b : Bool) → same_bool a b ≡ true → a ≡ b
same_bool→eq true b h = sym h
same_bool→eq false true h = cc
same_bool→eq false false h = refl

same_bool_refl : (a : Bool) → same_bool a a ≡ true
same_bool_refl true = refl
same_bool_refl false = refl

same_label→eq : (a b : Option Text) → same_label a b ≡ true → a ≡ b
same_label→eq none none h = refl
same_label→eq none (some b) h = cc
same_label→eq (some a) none h = cc
same_label→eq (some a) (some b) h = ap some (text_eq→eq a b h)

same_label_refl : (a : Option Text) → same_label a a ≡ true
same_label_refl none = refl
same_label_refl (some a) = text_eq_refl a

append_nil : (xs ys : List Text) → xs ++ ys ≡ [] → (xs ≡ []) × (ys ≡ [])
append_nil [] ys h = (refl, h)
append_nil (x ∷ xs) ys h = cc

-- A difference is listed exactly if the test fails.
listed_unless : (b : Bool) (ts : List Text) → ts ≢ [] → (if b then [] else ts) ≡ [] → b ≡ true
listed_unless true ts n h = refl
listed_unless false ts n h = absurd (n h)

one-ne-nil : (t : Text) (ts : List Text) → t ∷ ts ≢ []
one-ne-nil t ts h = cc

differences-ne-nil :
    (a b c d : Text) (have names missing added : List Text)
    → listed_as a b missing ++ (listed_as c d added ++ order_as have names missing added) ≢ []
differences-ne-nil a b c d have names [] [] h = cc
differences-ne-nil a b c d have names [] (x ∷ added) h = cc
differences-ne-nil a b c d have names (m ∷ missing) added h = cc

abbrev SameLayout : Manifest → List Text → CsvDestConfig → Type 0
SameLayout m names cfg =
    (names_of m ≡ names)
    × (m.delimiter ≡ cfg.delimiter)
    × (m.header ≡ cfg.header)
    × (m.compression ≡ label cfg.gzip)

module _ (debug : Text → Text) (m : Manifest) (names : List Text) (cfg : CsvDestConfig) where
  none-SameLayout : layout_differences debug m names cfg ≡ [] → SameLayout m names cfg
  unfolding layout_differences
  none-SameLayout h =
      let (a, h') = append_nil _ _ h in
      let (b, h'') = append_nil _ _ h' in
      let (c, d) = append_nil _ _ h'' in
      (
        same_names→eq (names_of m) names (
            listed_unless (same_names (names_of m) names) (column_differences (names_of m) names)
              (differences-ne-nil (codes "this run doesn't write column(s) ")
                (codes " that the folder's parts have") (codes "this run writes column(s) ")
                (codes " that the folder's parts don't have") (names_of m) names
                (not_among names (names_of m)) (not_among (names_of m) names))
              a),
        ==→eq m.delimiter cfg.delimiter
            (listed_unless (m.delimiter == cfg.delimiter) _ (one-ne-nil _ []) b),
        same_bool→eq m.header cfg.header
            (listed_unless (same_bool m.header cfg.header) _ (one-ne-nil _ []) c),
        same_label→eq m.compression (label cfg.gzip)
            (listed_unless (same_label m.compression (label cfg.gzip)) _ (one-ne-nil _ []) d),
      )

  SameLayout-none : SameLayout m names cfg → layout_differences debug m names cfg ≡ []
  unfolding layout_differences
  SameLayout-none (a, b, c, d) =
      rw (a, same_names_refl names)
        (rw (b, (==_iff cfg.delimiter cfg.delimiter).1 refl)
          (rw (c, same_bool_refl cfg.header) (rw (d, same_label_refl (label cfg.gzip)) refl)))

-- Nothing stands against adding parts to a folder exactly if its columns have the same names in the
-- same order, and its delimiter, header and compression are those of the run.
pub layout_differences_exact :
    (debug : Text → Text) (m : Manifest) (names : List Text) (cfg : CsvDestConfig)
    → (layout_differences debug m names cfg ≡ []) ↔ (
        (names_of m ≡ names)
        × (m.delimiter ≡ cfg.delimiter)
        × (m.header ≡ cfg.header)
        × (m.compression ≡ label cfg.gzip))
layout_differences_exact debug m names cfg =
    (none-SameLayout debug m names cfg, SameLayout-none debug m names cfg)
