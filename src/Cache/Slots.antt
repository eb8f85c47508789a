-- ===== src/Cache/Slots.antt =====
-- Where a slot of the cache comes from: the guarded writes keep what a key holds or put their own
-- payload there.
use ticker_watch_case_study.Base.{
  ℕ, ◌+◌, take-All, ◌≡◌, ◌⊎◌, inl, inr, Bool-cases, some, List, [], ◌∷◌, ◌==◌, All, arith, take,
}
use ticker_watch_case_study.Base.Dict.{lookup, lookup-insert}
use ticker_watch_case_study.Base.Text.{Text, text_key}
use ticker_watch_case_study.Cache.{
  Cached, Slot, Redis, Entry, Link, up, cut, dumps, price_key, is_newer, get, cas, pipeline,
  set_prices_if_newer,
}

pub price_key_injective : (t u : Text) → price_key t ≡ price_key u → t ≡ u
unfolding price_key
price_key_injective t u h = ground (arith, h)

module _ {F : Type 0} where
  cas_slot :
      (clock ttl : ℕ) (key k : Text) (value : Cached F) (stamp : Text) (r : Redis F) (slot : Slot F)
      → lookup k (cas clock key value stamp ttl r).1 ≡ some slot
      → (lookup k r ≡ some slot) ⊎ ((key ≡ k) × (slot.value ≡ value))
  unfolding cas
  cas_slot clock ttl key k value stamp r slot h =
      elim (Bool-cases (is_newer (get clock key r) stamp)) [
        | inl newer ↦ inl (ground (arith, h, newer))
        | inr older ↦
            let put = lookup-insert key k (record { value = value; expires = clock + ttl }) r in
            elim (Bool-cases (key == k)) [
              | inr other ↦ inl (ground (arith, h, older, put, other))
              | inl same ↦
                  inr ((text_key.test_iff key k).0 same, ground (arith, h, older, put, same))
            ]
      ]

  -- the slot holds the payload of an entry with `P`
  abbrev pub IsPut : (Entry F → Type 0) → Text → Slot F → Type 0
  IsPut P k slot = (e : Entry F) × P e × (price_key e.ticker ≡ k) × (slot.value ≡ dumps e.payload)

  pipeline_slot :
      (P : Entry F → Type 0) (clock ttl : ℕ) (k : Text) (es : List (Entry F)) (r : Redis F)
      (slot : Slot F)
      → All P es
      → lookup k (pipeline clock ttl es r).1 ≡ some slot
      → (lookup k r ≡ some slot) ⊎ IsPut P k slot
  unfolding pipeline
  pipeline_slot P clock ttl k [] r slot ps h = inl h
  pipeline_slot P clock ttl k (e ∷ es) r slot ps h =
      let r' = (cas clock (price_key e.ticker) (dumps e.payload) e.effective_at_iso ttl r).1 in
      elim (pipeline_slot P clock ttl k es r' slot ps.1 h) [
        | inr put ↦ inr put
        | inl there ↦
            elim (cas_slot clock ttl (price_key e.ticker) k (dumps e.payload) e.effective_at_iso r
              slot there) [ inl old ↦ inl old | inr (key, value) ↦ inr (e, ps.0, key, value) ]
      ]

  -- a batch of guarded writes, whatever becomes of the connection
  pub set_prices_if_newer_slot :
      (P : Entry F → Type 0) (link : Link) (clock ttl : ℕ) (k : Text) (es : List (Entry F))
      (r : Redis F) (slot : Slot F)
      → All P es
      → lookup k (set_prices_if_newer link clock es ttl r).1 ≡ some slot
      → (lookup k r ≡ some slot) ⊎ IsPut P k slot
  unfolding set_prices_if_newer
  set_prices_if_newer_slot P link clock ttl k [] r slot ps h = inl h
  set_prices_if_newer_slot P up clock ttl k (e ∷ es) r slot ps h =
      pipeline_slot P clock ttl k (e ∷ es) r slot ps h
  set_prices_if_newer_slot P (cut n error) clock ttl k (e ∷ es) r slot ps h =
      pipeline_slot P clock ttl k (take n (e ∷ es)) r slot (take-All P n (e ∷ es) ps) h
