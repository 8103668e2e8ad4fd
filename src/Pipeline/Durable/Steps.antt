-- ===== src/Pipeline/Durable/Steps.antt =====
-- PersistentNativePipelineStore.ts: the work of one task between two waits.
use bbmcp.Prelude.{
  ℕ, ◌≡◌, ◌<◌, refl, ap, sym, ◌∙◌, inl, inr, Bool, true, false, Option, none, some, arith,
  Bool-cases, Option-cases,
}
use bbmcp.Prelude.Text.{◌==◌, eq_of_==}
use bbmcp.Pipeline.Model.{Timestamp}
use bbmcp.Pipeline.Rows.{Row}
use bbmcp.Pipeline.Durable.{
  Codec, update, idle, ready, World, set_object, new_object, get_cached_state, read_body, body_of,
  revision_in, persist_state, mutated_object, mutate_found, set_cached_state, open_found,
}
use bbmcp.Pipeline.Durable.Chain.{From, reloaded, created, same, tagged, acted}
use bbmcp.Pipeline.Durable.Keeps.{
  Collisionless, revision_of_option, SealedRow, IsCache, Good, set_object-Good, new_object-Good,
  set_task-Good, set_cache-Good,
}

update_self {ℓ} : {A : Type ℓ} (i : ℕ) (v : A) (f : ℕ → A) → update i v f i ≡ v
update_self i v f = ground arith

module _ (c : Codec) (collisionless : Collisionless c) where
  -- The object of the cache, where its revision is that of the row that was read.
  get_cached_state-From :
      (w : World c) (p o : ℕ) (existing : Option (Row c.Stored))
      → Good c w
      → SealedRow c existing
      → get_cached_state c w p existing ≡ some o
      → From c (body_of c existing) (w.objects o) × (o < w.next_object)
  unfolding get_cached_state
  get_cached_state-From w p o none h sealed e = cc
  get_cached_state-From w p o (some row) h sealed e = elim (Option-cases (w.caches p)) [
    | inl absent ↦ absurd (ground arith)
    | inr (x, cached) ↦ elim (Bool-cases (row.revision == x.revision)) [
      | inl hit ↦
          let it : IsCache c w.objects w.next_object x = h.cached p x cached in
          let revised : row.revision ≡ x.revision = eq_of_== row.revision x.revision hit in
          let body : row.body ≡ it.stored =
            collisionless row.body it.stored (sym sealed ∙ revised ∙ it.revised) in
          let object : x.object ≡ o = ground arith in rw (← object) (rw body it.from, it.old)
      | inr miss ↦ absurd (ground arith)
    ]
  ]

  -- An object that comes of what was read.
  abbrev IsHeld : Option (Row c.Stored) → ℕ → World c → Type 0
  IsHeld existing o w = From c (body_of c existing) (w.objects o) × (o < w.next_object)

  abbrev Prepared : Option (Row c.Stored) → ℕ × World c → Type 0
  Prepared existing (o, w) =
      Good c w × From c (body_of c existing) (w.objects o) × (o < w.next_object)

  new_object-Prepared :
      (existing : Option (Row c.Stored)) (s : c.Held) (w : World c)
      → Good c w
      → From c (body_of c existing) s
      → Prepared existing (w.next_object, new_object c s w)
  new_object-Prepared existing s w h f =
      (new_object-Good c s w h, rw (update_self w.next_object s w.objects) f, omega arith)

  mutated_object-Prepared :
      (w : World c) (p : ℕ) (existing : Option (Row c.Stored))
      → Good c w
      → SealedRow c existing
      → Prepared existing (mutated_object c w p existing)
  unfolding mutated_object
  mutated_object-Prepared w p existing h sealed =
      elim (Option-cases (get_cached_state c w p existing)) [
        | inr (o, hit) ↦
            let (f, old) = get_cached_state-From w p o existing h sealed hit in
            rw (mutated_object, hit)
              (
                set_object-Good c o (c.tag (w.objects o)).1 w (λ d g. tagged g) h,
                rw (update_self o (c.tag (w.objects o)).1 w.objects) (tagged f),
                old,
              )
        | inl miss ↦ elim (Option-cases (read_body c (body_of c existing))) [
          | inr (s, read) ↦
              rw (mutated_object, miss, read)
                (new_object-Prepared existing (c.tag s).1 w h (tagged (reloaded read)))
          | inl unread ↦
              rw (mutated_object, miss, unread)
                (new_object-Prepared existing c.empty w h (created unread refl))
        ]
      ]

  revision_in-sealed :
      (existing : Option (Row c.Stored))
      → SealedRow c existing
      → revision_in c existing ≡ revision_of_option c (body_of c existing)
  revision_in-sealed none h = refl
  revision_in-sealed (some row) h = ap some h

  persist_state-Good :
      (t p o : ℕ) (existing : Option (Row c.Stored)) (now : Timestamp) (reading : Bool)
      (w : World c)
      → Good c w
      → SealedRow c existing
      → IsHeld existing o w
      → Good c (persist_state c t p o existing now reading w)
  unfolding persist_state
  persist_state-Good t p o existing now reading w h sealed (f, old) =
      set_task-Good c t _ w
        (record {
          base = body_of c existing;
          expects = revision_in-sealed existing sealed;
          state = w.objects o;
          extends = f;
          written = refl;
          sealed = refl;
          held = same refl;
          old = old;
        })
        h

  pub mutate_found-Good :
      (t p : ℕ) (existing : Option (Row c.Stored)) (operation : c.Operation) (now : Timestamp)
      (w : World c)
      → Good c w
      → SealedRow c existing
      → Good c (mutate_found c t p existing operation now w)
  unfolding mutate_found
  mutate_found-Good t p existing operation now w h sealed =
      let (o, w1) = mutated_object c w p existing in
      let (h1, f, old) = mutated_object-Prepared w p existing h sealed in
      let (returned, s) = c.act operation (w1.objects o) in
      let w2 = set_object c o s w1 in
      let h2 : Good c w2 = set_object-Good c o s w1 (λ d g. acted operation g) h1 in
      elim (Bool-cases returned) [
        | inl fine ↦
            rw (mutate_found, fine)
              (persist_state-Good t p o existing now false w2 h2 sealed
                (rw (update_self o s w1.objects) (acted operation f), old))
        | inr threw ↦ rw (mutate_found, threw) (set_task-Good c t idle w2 tt h2)
      ]

  set_cached_state-Good :
      (p o : ℕ) (existing : Option (Row c.Stored)) (w : World c)
      → Good c w
      → SealedRow c existing
      → IsHeld existing o w
      → Good c (set_cached_state c p existing o w)
  set_cached_state-Good p o none w h sealed held = h
  set_cached_state-Good p o (some row) w h sealed (f, old) =
      set_cache-Good c p (some (record { revision = row.revision; object = o })) w
        (λ x e.
          let same_one : record { revision = row.revision; object = o } ≡ x = cc in
          rw (← same_one) (record { stored = row.body; revised = sealed; from = f; old = old }))
        h

  pub open_found-Good :
      (t p : ℕ) (existing : Option (Row c.Stored)) (locked : Bool) (now : Timestamp) (w : World c)
      → Good c w
      → SealedRow c existing
      → Good c (open_found c t p existing locked now w)
  unfolding open_found
  open_found-Good t p existing locked now w h sealed =
      elim (Option-cases (get_cached_state c w p existing)) [
        | inr (o, hit) ↦
            let (f, old) = get_cached_state-From w p o existing h sealed hit in
            rw (open_found, hit) (set_task-Good c t (ready o) w old h)
        | inl miss ↦ elim (Option-cases (read_body c (body_of c existing))) [
          | inr (s, read) ↦ elim (Bool-cases (c.tag s).0) [
            | inl changed ↦
                let (h1, held) = fresh (c.tag s).1 (tagged (reloaded read)) in
                rw (open_found, miss, read, changed)
                  (persist_state-Good t p w.next_object existing now true _ h1 sealed held)
            | inr level ↦
                let (h1, held) = fresh (c.tag s).1 (tagged (reloaded read)) in
                rw (open_found, miss, read, level)
                  (set_task-Good c t (ready w.next_object) _ (cached-old existing (c.tag s).1)
                    (set_cached_state-Good p w.next_object existing _ h1 sealed held))
          ]
          | inl unread ↦ elim (Bool-cases locked) [
            | inl fine ↦
                let (h1, held) = fresh c.empty (created unread refl) in
                rw (open_found, miss, unread, fine)
                  (persist_state-Good t p w.next_object existing now true _ h1 sealed held)
            | inr unlocked ↦ rw (open_found, miss, unread, unlocked) (set_task-Good c t idle w tt h)
          ]
        ]
      ]
    where
      fresh :
          (s : c.Held)
          → From c (body_of c existing) s
          → Good c (new_object c s w) × IsHeld existing w.next_object (new_object c s w)
      fresh s f = let (h1, g, old) = new_object-Prepared existing s w h f in (h1, (g, old))

      cached-old :
          (existing : Option (Row c.Stored)) (s : c.Held)
          → w.next_object
            < (set_cached_state c p existing w.next_object (new_object c s w)).next_object
      cached-old none s = omega arith
      cached-old (some row) s = omega arith
