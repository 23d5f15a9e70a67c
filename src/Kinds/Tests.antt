-- ===== src/Kinds/Tests.antt =====
-- Tests of the names of the warning kinds.
use quickhouse.Prelude.{◌≡◌, refl, none, some}
use quickhouse.Prelude.Text.{codes}
use quickhouse.Kinds.{WarningKind, from_name}

known : from_name (codes "null_key") ≡ some WarningKind.null_key
unfolding from_name
known = refl

unknown : from_name (codes "null_keys") ≡ none
unfolding from_name
unknown = refl
