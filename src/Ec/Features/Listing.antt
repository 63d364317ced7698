-- ===== src/Ec/Features/Listing.antt =====
-- What `get_features` (chromium_ec/mod.rs) lists.
use framework_system.Base.{ℕ, map, ◌≡◌, refl}
use framework_system.Ec.Features.{
  feature_code, all_features, feature_bit, feature_lines, feature_from,
}

module _ (flags : ℕ × ℕ) where
  -- The loop over the 64 bits lists every feature once, in the order of the numbers, with the bit
  -- that has the feature's number.
  pub feature_lines-all_features :
      feature_lines 64 0 flags
      ≡ map (λ feature. (feature, feature_bit flags (feature_code feature))) all_features
  unfolding feature_lines feature_code feature_from
  feature_lines-all_features = refl
