-- ===== src/Shared/Settings/Origins.antt =====
-- The origins of a comma-separated setting, and the URL of the migrations.
use ai_document_analysis.Prelude.{
  ℕ, ◌≡◌, ◌≢◌, refl, ap, ◌∙◌, false, List, [], ◌∷◌, ◌++◌, Text, codes, strip, strip-visible,
  IsVisible, is_empty, All, contains, starts_with, arith,
}
use ai_document_analysis.Prelude.Replace.{replace-absent, replace_first}
use ai_document_analysis.Shared.Settings.{
  Settings, split_at, stripped_parts, cors_origins_list, database_address, migration_url,
}

-- `",".join(origins)`
abbrev pub join_commas : List Text → Text
join_commas [] = []
join_commas (t ∷ []) = t
join_commas (t ∷ u ∷ ts) = t ++ (44 ∷ join_commas (u ∷ ts))

-- An origin is not empty, and has no comma and no space.
pub record IsOrigin (t : Text) : Type 0 where
  pub shown : is_empty t ≡ false
  pub visible : All IsVisible t
  pub no_comma : All (λ c. c ≢ 44) t

split_at-free : (d : ℕ) (t : Text) → All (λ c. c ≢ d) t → split_at d t ≡ t ∷ []
unfolding split_at
split_at-free d [] h = refl
split_at-free d (c ∷ t) h = ground (arith, h.0, split_at-free d t h.1)

split_at-append :
    (d : ℕ) (t u : Text) → All (λ c. c ≢ d) t → split_at d (t ++ d ∷ u) ≡ t ∷ split_at d u
unfolding split_at
split_at-append d [] u h = ground arith
split_at-append d (c ∷ t) u h = ground (arith, h.0, split_at-append d t u h.1)

split_at-join_commas :
    (t : Text) (ts : List Text)
    → All IsOrigin (t ∷ ts)
    → split_at 44 (join_commas (t ∷ ts)) ≡ t ∷ ts
split_at-join_commas t [] h = split_at-free 44 t h.0.no_comma
split_at-join_commas t (u ∷ ts) h =
    split_at-append 44 t (join_commas (u ∷ ts)) h.0.no_comma
    ∙ ap (◌∷◌ t) (split_at-join_commas u ts h.1)

stripped_parts_lem : (ts : List Text) → All IsOrigin ts → stripped_parts ts ≡ ts
unfolding stripped_parts
stripped_parts_lem [] h = refl
stripped_parts_lem (t ∷ ts) h =
    rw (strip-visible t h.0.visible, h.0.shown, stripped_parts)
      (ap (◌∷◌ t) (stripped_parts_lem ts h.1))

-- Origins without commas and spaces, none of them empty, that are joined by commas are the origins
-- that the services allow, in their order; without any origin none is allowed.
pub cors_origins_list-join_commas :
    (s : Settings) (origins : List Text)
    → All IsOrigin origins
    → s.cors_origins ≡ join_commas origins
    → cors_origins_list s ≡ origins
unfolding cors_origins_list strip
cors_origins_list-join_commas s [] h e = ap (λ x. stripped_parts (split_at 44 x)) e
cors_origins_list-join_commas s (t ∷ ts) h e =
    ap (λ x. stripped_parts (split_at 44 x)) e
    ∙ ap stripped_parts (split_at-join_commas t ts h)
    ∙ stripped_parts_lem (t ∷ ts) h

-- Where the address does not have +asyncpg in it, the migrations use the same address by the
-- scheme of the synchronous driver.
pub migration_url_lem :
    (str : ℕ → Text) (s : Settings)
    → contains (codes "+asyncpg") (database_address str s) ≡ false
    → migration_url str s ≡ codes "postgresql://" ++ database_address str s
unfolding migration_url starts_with contains
migration_url_lem str s h =
    ap (λ t. codes "postgresql" ++ t)
      (replace_first 43 (codes "asyncpg") [] (codes "://" ++ database_address str s)
        ∙ replace-absent 43 (codes "asyncpg") [] (codes "://" ++ database_address str s) h)
