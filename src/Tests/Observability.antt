-- ===== src/Tests/Observability.antt =====
-- A label and a summary of three durations.
use backend_challenge.Base.{negsuc, [], ◌≡◌, ◌∷◌, pos, refl}
use backend_challenge.Text.{text, runes}
use backend_challenge.Observability.{label}
use backend_challenge.Observability.Durations.{observe_all, summary_of, observe_all-summary_of}

-- The slash is replaced.
provider_a : label (text " Provider/A ") ≡ text "provider_a"
unfolding label runes
provider_a = refl

observe_all-summary_of_example :
    observe_all (pos 2500 ∷ pos 7000 ∷ negsuc 4 ∷ [])
    ≡ summary_of (pos 2500 ∷ pos 7000 ∷ negsuc 4 ∷ [])
observe_all-summary_of_example = observe_all-summary_of (pos 2500 ∷ pos 7000 ∷ negsuc 4 ∷ [])
