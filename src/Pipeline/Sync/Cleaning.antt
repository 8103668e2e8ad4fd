-- ===== src/Pipeline/Sync/Cleaning.antt =====
-- projectSnapshotSync.ts: what a synchronised snapshot shows, and which textures it drops.
use bbmcp.Prelude.{
  ℕ, zero, suc, ◌+◌, ◌≡◌, ◌<◌, ◌↔◌, refl, ◌∙◌, ap, inl, inr, true, not, List, [], ◌∷◌, ◌++◌, arith,
  Bool-cases, keep_if, take, drop, length,
}
use bbmcp.Prelude.Text.{Text, text, ==_iff, eq_of_==}
use bbmcp.Pipeline.Model.{TextureAtlas}
use bbmcp.Pipeline.State.{Project}
use bbmcp.Pipeline.Sync.{
  starts_with, is_legacy_mock_texture, keep_sources, synchronize_project_snapshot,
}
use bbmcp.Pipeline.Sync.Laws.{is_bone, is_cube, tally, derive_hierarchy_stats-tally}

abbrev mock_prefix : Text
mock_prefix = text "data:image/svg+xml;base64,"

-- A texture of the mock-ups: by its identifier, its name and the head of its image.
pub record IsMock (t : TextureAtlas) : Type 0 where
  pub identifier : t.texture_id ≡ text "atlas-main"
  pub name : t.name ≡ text "Main Atlas"
  pub rest : Text
  pub image : t.image_data_url ≡ text "data:image/svg+xml;base64," ++ rest

-- The second list is the first one without the textures of the mock-ups, in the same order.
pub data IsCleaned : List TextureAtlas → List TextureAtlas → Type 0 where
  done : IsCleaned [] []
  kept :
      {t : TextureAtlas} {ts us : List TextureAtlas}
      → ¬ IsMock t
      → IsCleaned ts us
      → IsCleaned (t ∷ ts) (t ∷ us)
  dropped :
      {t : TextureAtlas} {ts us : List TextureAtlas}
      → IsMock t
      → IsCleaned ts us
      → IsCleaned (t ∷ ts) us

take-append {ℓ} : {A : Type ℓ} (xs ys : List A) → take (length xs) (xs ++ ys) ≡ xs
take-append [] ys = refl
take-append (x ∷ xs) ys = ap (λ zs. x ∷ zs) (take-append xs ys)

append-take-drop {ℓ} : {A : Type ℓ} (n : ℕ) (xs : List A) → xs ≡ take n xs ++ drop n xs
append-take-drop zero xs = refl
append-take-drop (suc n) [] = refl
append-take-drop (suc n) (x ∷ xs) = ap (λ zs. x ∷ zs) (append-take-drop n xs)

starts_with-append : (prefix rest : Text) → starts_with prefix (prefix ++ rest) ≡ true
starts_with-append prefix rest = (==_iff _ _).1 (take-append prefix rest)

append-starts_with :
    (prefix s : Text) → starts_with prefix s ≡ true → s ≡ prefix ++ drop (length prefix) s
append-starts_with prefix s h =
    append-take-drop (length prefix) s
    ∙ ap (λ head. head ++ drop (length prefix) s) (eq_of_== (take (length prefix) s) prefix h)

legacy-IsMock : (t : TextureAtlas) → is_legacy_mock_texture t ≡ true → IsMock t
unfolding is_legacy_mock_texture
legacy-IsMock t h = record {
  identifier = eq_of_== t.texture_id (text "atlas-main") (ground arith);
  name = eq_of_== t.name (text "Main Atlas") (ground arith);
  rest = drop (length mock_prefix) t.image_data_url;
  image = append-starts_with mock_prefix t.image_data_url (ground arith);
}

IsMock-legacy : (t : TextureAtlas) → IsMock t → is_legacy_mock_texture t ≡ true
unfolding is_legacy_mock_texture
IsMock-legacy t m =
    let url : starts_with mock_prefix t.image_data_url ≡ true =
      ap (starts_with mock_prefix) m.image ∙ starts_with-append mock_prefix m.rest in
    rw
      (
        (==_iff t.texture_id (text "atlas-main")).1 m.identifier,
        (==_iff t.name (text "Main Atlas")).1 m.name,
      )
      url

keep_if-IsCleaned :
    (ts : List TextureAtlas) → IsCleaned ts (keep_if (λ t. not (is_legacy_mock_texture t)) ts)
keep_if-IsCleaned [] = done
keep_if-IsCleaned (t ∷ ts) =
    let rest = keep_if-IsCleaned ts in
    elim (Bool-cases (is_legacy_mock_texture t)) [
      | inl mock ↦ rw mock (dropped (legacy-IsMock t mock) rest)
      | inr other ↦ rw other (kept (λ m. let mock = IsMock-legacy t m in cc) rest)
    ]

-- The snapshot counts its hierarchy, tells whether there is any geometry, and has lost the textures
-- of the mock-ups, and with the last texture the sources of all; the rest of it stays.
pub record IsSynchronized (p next : Project) : Type 0 where
  pub bones : next.stats.bones ≡ tally is_bone p.hierarchy
  pub cubes : next.stats.cubes ≡ tally is_cube p.hierarchy
  pub geometry :
      (next.has_geometry ≡ true) ↔ (0 < tally is_bone p.hierarchy + tally is_cube p.hierarchy)
  pub cleaned : IsCleaned p.textures next.textures
  pub no_sources : next.textures ≡ [] → next.texture_sources ≡ []
  pub sources : ¬ (next.textures ≡ []) → next.texture_sources ≡ p.texture_sources
  pub rest : next ≡ record p {
    stats = next.stats;
    has_geometry = next.has_geometry;
    textures = next.textures;
    texture_sources = next.texture_sources;
  }

keep_sources-nil {ℓ κ} :
    {A : Type ℓ} {B : Type κ} (ts : List A) (sources : List B)
    → ts ≡ []
    → keep_sources ts sources ≡ []
keep_sources-nil [] sources h = refl
keep_sources-nil (t ∷ ts) sources h = cc

keep_sources-cons {ℓ κ} :
    {A : Type ℓ} {B : Type κ} (ts : List A) (sources : List B)
    → ¬ (ts ≡ [])
    → keep_sources ts sources ≡ sources
keep_sources-cons [] sources h = absurd (h refl)
keep_sources-cons (t ∷ ts) sources h = refl

-- A snapshot that has been brought up to date has the numbers of its bones and of its cubes, shows
-- geometry exactly where there is one of either, has its textures in their order but for those of
-- the mock-ups, and its texture sources, but none without a texture; nothing else of it changes.
pub synchronize_project_snapshot-IsSynchronized :
    (p : Project) → IsSynchronized p (synchronize_project_snapshot p)
unfolding synchronize_project_snapshot
synchronize_project_snapshot-IsSynchronized p =
    let kept_textures = keep_if (λ t. not (is_legacy_mock_texture t)) p.textures in
    let (bones, cubes) = derive_hierarchy_stats-tally p.hierarchy in
    record {
      bones = bones;
      cubes = cubes;
      geometry = (λ h. ground (arith, bones, cubes), λ h. ground (arith, bones, cubes));
      cleaned = keep_if-IsCleaned p.textures;
      no_sources = keep_sources-nil kept_textures p.texture_sources;
      sources = keep_sources-cons kept_textures p.texture_sources;
      rest = refl;
    }
