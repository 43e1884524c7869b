-- ===== src/Spectest/Load.antt =====
-- internal/spectest/spectest.go: `Load`, which caches the OpenAPI document and its router. The loader,
-- the validation and the router are a parameter; they read the outside, which may change.
pub mod Laws
use hrobot_go.Base.{
  ◌≡◌, refl, ◌↔◌, ap, ap₂, ◌∙◌, Bool, true, false, ◌++◌, Bytes, codes, Option, some, none,
}
use hrobot_go.Errors.{GoError, nil, error, other, wrapped, Result, ok, fail}

pub record Loader : Type 1 where
  pub Outside : Type 0
  pub Doc : Type 0
  pub Router : Type 0
  -- `LoadFromFile`, without external references.
  pub load_from_file : Bytes → Outside → Result Doc
  -- `doc.Validate`.
  pub validate : Doc → GoError
  -- `doc.Servers = nil`.
  pub clear_servers : Doc → Doc
  -- `gorillamux.NewRouter`.
  pub new_router : Doc → Result Router

module _ (L : Loader) where
  pub record Spec : Type 0 where
    pub doc : L.Doc
    pub router : L.Router

  -- The package's variables: whether `loadOnce` ran, `loaded` and `loadErr`.
  pub record Cache : Type 0 where
    pub done : Bool
    pub loaded : Option Spec
    pub load_err : GoError

  abbrev pub no_cache : Cache
  no_cache = record { done = false; loaded = none; load_err = nil }

  abbrev failed : Bytes → Bytes → GoError → Cache
  failed step path e = record {
    done = true;
    loaded = none;
    load_err = wrapped (codes "spectest: " ++ (step ++ (codes " " ++ path))) e;
  }

  unfoldable pub routed : Bytes → L.Doc → Result L.Router → Cache
  routed path doc (ok router) = record {
    done = true;
    loaded = some (record { doc = doc; router = router });
    load_err = nil;
  }
  routed path doc (fail e) = failed (codes "build router for") path e

  unfoldable pub validated : Bytes → L.Doc → GoError → Cache
  validated path doc nil = routed path (L.clear_servers doc) (L.new_router (L.clear_servers doc))
  validated path doc e = failed (codes "validate") path e

  unfoldable pub read : Bytes → Result L.Doc → Cache
  read path (ok doc) = validated path doc (L.validate doc)
  read path (fail e) = failed (codes "load") path e

  -- `loadOnce.Do`.
  unfoldable pub once : Bytes → L.Outside → Cache → Bool → Cache
  once path o cache true = cache
  once path o cache false = read path (L.load_from_file path o)

  -- The pair that is returned, and the variables.
  unfoldable pub load : Bytes → L.Outside → Cache → (Option Spec × GoError) × Cache
  unfolding once read validated routed
  load path o cache =
      let cache' = once path o cache cache.done in ((cache'.loaded, cache'.load_err), cache')
