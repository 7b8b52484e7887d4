-- ===== src/Cli/Tests.antt =====
-- Runs of the command line's parser on small inputs.
use sasc.Prelude.{◌≡◌, refl, [], ◌∷◌}
use sasc.Frontend.Token.{chars}
use sasc.Cli.Text.{pieces}

split_example : pieces "," [] (chars "a,,b") ≡ chars "a" ∷ [] ∷ chars "b" ∷ []
unfolding pieces
split_example = refl
