-- ===== src/Witnesses/Traffic.antt =====
-- The dialog of a traffic provider at concrete inputs.
use mihomo_cp.Prelude.{◌≡◌, refl, false, [], ◌∷◌, some}
use mihomo_cp.Js.Text.{codes, trim}
use mihomo_cp.Traffic.{
  Host, ProviderForm, empty_form, save_provider, input_of, patterns_of, join_patterns,
}
use mihomo_cp.Traffic.Patterns.{Clean, patterns_of-join_patterns}
use mihomo_cp.Traffic.Provider.{Sound, save_provider-Sound}
use mihomo_cp.Witnesses.Inputs.{digit}

abbrev host : Host
host = record {
  parse_float = digit;
  parse_int = digit;
  number_text = λ n. codes "0";
  gb_text = λ n. codes "0";
  gb_bytes = λ n. n;
  is_zone = λ zone. false;
}

abbrev filled_in : ProviderForm
filled_in = record empty_form { name = codes " P "; quota_gb = codes "5"; patterns = codes "a, b" }

sent : save_provider host filled_in ≡ some (input_of host filled_in)
unfolding save_provider
sent = refl

save_provider-Sound_example : Sound host (input_of host filled_in)
save_provider-Sound_example = save_provider-Sound host filled_in (input_of host filled_in) sent

glob-Clean : Clean (codes "us*")
unfolding trim
glob-Clean = record { plain = (refl, (refl, (refl, tt))); trimmed = refl; full = refl }

patterns_of-join_patterns_example :
    patterns_of (join_patterns (codes "us*" ∷ codes "us*" ∷ [])) ≡ codes "us*" ∷ codes "us*" ∷ []
patterns_of-join_patterns_example =
    patterns_of-join_patterns (codes "us*" ∷ codes "us*" ∷ []) (glob-Clean, (glob-Clean, tt))

-- A pattern with a comma comes back as two.
comma_splits : patterns_of (join_patterns (codes "[a,b]" ∷ [])) ≡ codes "[a" ∷ codes "b]" ∷ []
unfolding patterns_of join_patterns
comma_splits = refl
