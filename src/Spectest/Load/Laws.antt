-- ===== src/Spectest/Load/Laws.antt =====
-- When a load is good, and that it happens once.
use hrobot_go.Base.{
  ◌≡◌, refl, subst, ◌↔◌, sym, ap, ap₂, ◌∙◌, Bool, true, false, Bytes, Option, some,
}
use hrobot_go.Errors.{GoError, nil, error, other, wrapped, Result, ok, fail}
use hrobot_go.Errors.Laws.{ok-injective}
use hrobot_go.Spectest.Load.{Loader, Spec, Cache, no_cache, routed, validated, read, once, load}

module _ (L : Loader) where
  -- What a good load takes.
  abbrev pub Loads : Bytes → L.Outside → Spec L → Type 0
  Loads path o spec =
      (doc : L.Doc) × (L.load_from_file path o ≡ ok doc)
      × (L.validate doc ≡ nil)
      × (spec.doc ≡ L.clear_servers doc)
      × (L.new_router spec.doc ≡ ok spec.router)

  abbrev result : Cache L → Option (Spec L) × GoError
  result cache = (cache.loaded, cache.load_err)

  routed_iff :
      (path : Bytes) (doc : L.Doc) (r : Result L.Router) (spec : Spec L)
      → (result (routed L path doc r) ≡ (some spec, nil))
        ↔ ((spec.doc ≡ doc) × (r ≡ ok spec.router))
  unfolding routed
  routed_iff path doc (ok router) spec = (
    λ h. (cc, cc),
    λ (d, r). ap₂ (λ d r. (some (record { doc = d; router = r }), nil)) (sym d) (ok-injective r),
  )
  routed_iff path doc (fail e) spec = (λ h. cc, λ (d, r). cc)

  validated_iff :
      (path : Bytes) (doc : L.Doc) (bad : GoError) (spec : Spec L)
      → (result (validated L path doc bad) ≡ (some spec, nil)) ↔ (
          (bad ≡ nil) × (spec.doc ≡ L.clear_servers doc) × (L.new_router spec.doc ≡ ok spec.router))
  unfolding validated
  validated_iff path doc nil spec =
      let (to, from) =
        routed_iff path (L.clear_servers doc) (L.new_router (L.clear_servers doc)) spec in
      (
        λ h. let (d, r) = to h in (refl, d, ap L.new_router d ∙ r),
        λ (v, d, r). from (d, ap L.new_router (sym d) ∙ r),
      )
  validated_iff path doc (error k s n t u) spec = (λ h. cc, λ (v, d, r). cc)
  validated_iff path doc (wrapped t u) spec = (λ h. cc, λ (v, d, r). cc)
  validated_iff path doc (other t) spec = (λ h. cc, λ (v, d, r). cc)

  read_iff :
      (path : Bytes) (r : Result L.Doc) (spec : Spec L)
      → (result (read L path r) ≡ (some spec, nil)) ↔ (
          (doc : L.Doc) × (r ≡ ok doc)
          × (L.validate doc ≡ nil)
          × (spec.doc ≡ L.clear_servers doc)
          × (L.new_router spec.doc ≡ ok spec.router))
  unfolding read
  read_iff path (ok doc) spec =
      let (to, from) = validated_iff path doc (L.validate doc) spec in
      (
        λ h. let (v, d, n) = to h in (doc, refl, v, d, n),
        λ (doc', e, v, d, n). from (back doc' (sym (ok-injective e)) (v, d, n)),
      )
    where
      back :
          (doc' : L.Doc)
          → doc' ≡ doc
          → (L.validate doc' ≡ nil)
            × (spec.doc ≡ L.clear_servers doc')
            × (L.new_router spec.doc ≡ ok spec.router)
          → (L.validate doc ≡ nil)
            × (spec.doc ≡ L.clear_servers doc)
            × (L.new_router spec.doc ≡ ok spec.router)
      back doc' e h =
          subst
            (λ doc.
              (L.validate doc ≡ nil)
              × (spec.doc ≡ L.clear_servers doc)
              × (L.new_router spec.doc ≡ ok spec.router))
            e h
  read_iff path (fail e) spec = (λ h. cc, λ (doc, r, v, d, n). cc)

  validated_done :
      (path : Bytes) (doc : L.Doc) (bad : GoError) → (validated L path doc bad).done ≡ true
  unfolding validated routed
  validated_done path doc nil = routed_done (L.new_router (L.clear_servers doc))
    where
      routed_done : (r : Result L.Router) → (routed L path (L.clear_servers doc) r).done ≡ true
      routed_done (ok router) = refl
      routed_done (fail e) = refl
  validated_done path doc (error k s n t u) = refl
  validated_done path doc (wrapped t u) = refl
  validated_done path doc (other t) = refl

  read_done : (path : Bytes) (r : Result L.Doc) → (read L path r).done ≡ true
  unfolding read
  read_done path (ok doc) = validated_done path doc (L.validate doc)
  read_done path (fail e) = refl

  once_done :
      (path : Bytes) (o : L.Outside) (cache : Cache L) (done : Bool)
      → cache.done ≡ done
      → (once L path o cache done).done ≡ true
  unfolding once
  once_done path o cache true h = h
  once_done path o cache false h = read_done path (L.load_from_file path o)

  -- The first call of `Load` gives a document and its router, without an error, exactly if the file is
  -- read, the document is valid and a router is made of it without its servers; and after any call,
  -- every later one gives the same, whatever its path and whatever the file holds by then, and changes
  -- nothing.
  pub load-again :
      (path path' : Bytes) (o o' : L.Outside) (cache : Cache L) (spec : Spec L)
      → (((load L path o (no_cache L)).0 ≡ (some spec, nil)) ↔ Loads path o spec)
        × (load L path' o' (load L path o cache).1 ≡ load L path o cache)
  unfolding load
  load-again path path' o o' cache spec = (
    unfold once in read_iff path (L.load_from_file path o) spec,
    again _ (once_done path o cache cache.done refl),
  )
    where
      again :
          (later : Cache L)
          → later.done ≡ true
          → load L path' o' later ≡ ((later.loaded, later.load_err), later)
      again later h = rw h (unfold once in refl)
