-- ===== src/Objects/Dispatch/Stored.antt =====
-- libs/cov-api/src/cov/io/db_object.cc: what `load` makes of what `store` gives.
use git2_cxx.Base.{
  ℕ, ◌==◌, true, [], ◌∷◌, Option, none, some, Bytes, if◌then◌else◌, ◌≡◌, ◌≢◌, refl, ap, ◌∙◌, arith,
  All, Bool-cases, Option-cases, inl, inr,
}
use git2_cxx.Words.{IsU32}
use git2_cxx.Streams.{done, store_word}
use git2_cxx.Streams.Laws.{word-store_word}
use git2_cxx.Objects.Dispatch.{
  loaded, Handler, Handlers, add_handler, set_handler, remove_handler, find_handler, ended,
  load_with, load, store,
}

module _ {A : Type 0} where
  -- No handler has this tag.
  unfoldable pub Lacks : ℕ → Handlers A → Type 0
  Lacks magic handlers = All (λ (e : ℕ × ℕ × Handler A). e.0 ≢ magic) handlers

  -- The keys of a map: no tag stands twice.
  unfoldable pub IsHandlers : Handlers A → Type 0
  unfolding Lacks
  IsHandlers [] = Unit {0}
  IsHandlers ((magic, version, h) ∷ handlers) =
      IsU32 magic × IsU32 version × Lacks magic handlers × IsHandlers handlers

  -- Where the handler stores the object, it loads the other one from that.
  abbrev pub Restores : A → A → ℕ × ℕ × Handler A → Type 0
  Restores value back e =
      (payload : Bytes)
      → e.2.recognized value ≡ true
      → e.2.store value ≡ some payload
      → (rest : Bytes) × (e.2.load payload ≡ done back rest)

  find_handler-Lacks :
      (magic : ℕ) (handlers : Handlers A)
      → Lacks magic handlers
      → find_handler handlers magic ≡ none
  unfolding find_handler Lacks
  find_handler-Lacks magic [] l = refl
  find_handler-Lacks magic ((other, version, h) ∷ handlers) l =
      ground (arith, l.0, find_handler-Lacks magic handlers l.1)

  find_handler-set_handler :
      (handlers : Handlers A) (magic version : ℕ) (h : Handler A) (other : ℕ)
      → find_handler (set_handler handlers magic version h) other
        ≡ (if other == magic then some (version, h) else find_handler handlers other)
  unfolding find_handler set_handler
  find_handler-set_handler [] magic version h other = ground arith
  find_handler-set_handler ((there, old, k) ∷ handlers) magic version h other =
      ground (arith, find_handler-set_handler handlers magic version h other)

  find_handler-remove_handler :
      (handlers : Handlers A) (magic other : ℕ)
      → IsHandlers handlers
      → find_handler (remove_handler handlers magic) other
        ≡ (if other == magic then none else find_handler handlers other)
  unfolding find_handler remove_handler IsHandlers
  find_handler-remove_handler [] magic other h = ground arith
  find_handler-remove_handler ((there, old, k) ∷ handlers) magic other h = ground (
    arith,
    find_handler-remove_handler handlers magic other h.3,
    find_handler-Lacks there handlers h.2,
  )

  -- After a handler is added for a tag, that tag has it, with its version, or none if it was null; the
  -- other tags have what they had.
  pub find_handler-add_handler :
      (handlers : Handlers A) (magic : ℕ) (added : Option (Handler A)) (version other : ℕ)
      → IsHandlers handlers
      → find_handler (add_handler handlers magic added version) other ≡ (
          if other == magic
          then elim added [ none ↦ none | some h ↦ some (version, h) ]
          else find_handler handlers other)
  unfolding add_handler
  find_handler-add_handler handlers magic none version other h =
      find_handler-remove_handler handlers magic other h
  find_handler-add_handler handlers magic (some added) version other h =
      find_handler-set_handler handlers magic version added other

  pub load-found :
      (handlers : Handlers A) (magic version : ℕ) (rest : Bytes)
      → IsU32 magic
      → IsU32 version
      → load handlers (store_word magic (store_word version rest))
        ≡ load_with (find_handler handlers magic) version rest
  unfolding load load_with
  load-found handlers magic version rest m v =
      rw
        (
          word-store_word magic m (store_word version rest),
          load,
          word-store_word version v rest,
          load,
        )
        refl

  pub load_with-done :
      (h : Handler A) (version : ℕ) (s rest : Bytes) (a : A)
      → h.load s ≡ done a rest
      → load_with (some (version, h)) version s ≡ loaded a
  unfolding load_with ended
  load_with-done h version s rest a e = ground (arith, e)

  -- The handler that stores an object is the one that its bytes are loaded with.
  store-chosen :
      (handlers : Handlers A) (value back : A) (bytes : Bytes)
      → IsHandlers handlers
      → All (Restores value back) handlers
      → store handlers value ≡ some bytes
      → (magic version : ℕ) × (h : Handler A) × (payload rest : Bytes) × IsU32 magic
        × IsU32 version
        × (bytes ≡ store_word magic (store_word version payload))
        × (find_handler handlers magic ≡ some (version, h))
        × (h.load payload ≡ done back rest)
  unfolding store find_handler IsHandlers
  store-chosen [] value back bytes h each stored = absurd (ground (arith, stored))
  store-chosen ((magic, version, k) ∷ handlers) value back bytes h each stored =
      elim (Bool-cases (k.recognized value)) [
        | inl taken ↦ elim (Option-cases (k.store value)) [
          | inl missing ↦ absurd (ground (arith, stored, taken, missing))
          | inr (payload, there) ↦
              let (rest, loads) = each.0 payload taken there in
              (
                magic,
                version,
                k,
                payload,
                rest,
                h.0,
                h.1,
                ground (arith, stored, taken, there),
                ground arith,
                loads,
              )
        ]
        | inr refuses ↦
            let (m, v, chosen, payload, rest, hm, hv, same, there, loads) =
              store-chosen handlers value back bytes h.3 each.1 (ground (arith, stored, refuses)) in
            (
              m,
              v,
              chosen,
              payload,
              rest,
              hm,
              hv,
              same,
              ground (arith, there, find_handler-Lacks magic handlers h.2),
              loads,
            )
      ]

  -- What the handlers store of an object is loaded as what the handler that recognizes the object
  -- loads.
  pub load-store :
      (handlers : Handlers A) (value back : A) (bytes : Bytes)
      → IsHandlers handlers
      → All (Restores value back) handlers
      → store handlers value ≡ some bytes
      → load handlers bytes ≡ loaded back
  load-store handlers value back bytes h each stored =
      let (m, v, chosen, payload, rest, hm, hv, same, there, loads) =
        store-chosen handlers value back bytes h each stored in
      ap (load handlers) same
      ∙ load-found handlers m v payload hm hv
      ∙ ap (λ o. load_with o v payload) there
      ∙ load_with-done chosen v payload rest back loads
