-- ===== src/Services/Asks.antt =====
-- What the operations of the services ask of the service: paths of one to four segments, and forms.
pub mod Network
pub mod Storage
pub mod Hosts
pub mod Groups
use hrobot_go.Url.Settings.{settings, flat, arrange}
use hrobot_go.Url.Settings.Laws.{HasBytes, pairs_of-settings, settings-IsBytes}
use hrobot_go.Base.{
  NodupKeys, ℤ, pos, negsuc, suc, itoa_int, itoa, itoa-IsDigit, All-weaken, Bool, true, format_bool,
  arith, ◌≡◌, refl, ap, ◌∙◌, List, [], ◌∷◌, ◌++◌, Bytes, codes, All, keys, sort_strings, join, some,
  false, subst, sym, lookup, lookup-cons, value_or, bytes_eq_iff, insert,
}
use hrobot_go.Url.Escape.{IsByte}
use hrobot_go.Url.Path.{read_path, read_path-join, Reads, self-Reads, IsSelf}
use hrobot_go.Url.Values.{Values, set, value_pairs, encode, pairs_of, IsBytes, parse_query-encode}
use hrobot_go.Url.Query.{parse_query}
use hrobot_go.Client.World.{Method, method_get, method_post, method_put, method_delete, World}
use hrobot_go.Client.Json.{Decoder}
use hrobot_go.Client.Methods
use hrobot_go.Client.Methods.{Session, no_value}
use hrobot_go.Client.Sends.{Ask, Asks, New, perform-New}

-- A collection, a thing in it, and a part of that thing or something that belongs to the part.
pub one-Reads : (word : Bytes) → All IsSelf word → read_path (b'/' ∷ word) ≡ some (word ∷ [])
unfolding join
one-Reads word h = read_path-join (word ∷ []) (word ∷ []) (self-Reads word h, tt)

pub two-Reads :
    (word t s : Bytes)
    → All IsSelf word
    → Reads t s
    → read_path (b'/' ∷ (word ++ (b'/' ∷ t))) ≡ some (word ∷ s ∷ [])
unfolding join
two-Reads word t s h r = read_path-join (word ∷ t ∷ []) (word ∷ s ∷ []) (self-Reads word h, (r, tt))

pub three-Reads :
    (word t s part : Bytes)
    → All IsSelf word
    → Reads t s
    → All IsSelf part
    → read_path (b'/' ∷ (word ++ (b'/' ∷ (t ++ (b'/' ∷ part))))) ≡ some (word ∷ s ∷ part ∷ [])
unfolding join
three-Reads word t s part h r k =
    read_path-join (word ∷ t ∷ part ∷ []) (word ∷ s ∷ part ∷ [])
      (self-Reads word h, (r, (self-Reads part k, tt)))

pub four-Reads :
    (word t s part t' s' : Bytes)
    → All IsSelf word
    → Reads t s
    → All IsSelf part
    → Reads t' s'
    → read_path (b'/' ∷ (word ++ (b'/' ∷ (t ++ (b'/' ∷ (part ++ (b'/' ∷ t')))))))
      ≡ some (word ∷ s ∷ part ∷ s' ∷ [])
unfolding join
four-Reads word t s part t' s' h r k r' =
    read_path-join (word ∷ t ∷ part ∷ t' ∷ []) (word ∷ s ∷ part ∷ s' ∷ [])
      (self-Reads word h, (r, (self-Reads part k, (r', tt))))

pub five-Reads :
    (word t s part t' s' leaf : Bytes)
    → All IsSelf word
    → Reads t s
    → All IsSelf part
    → Reads t' s'
    → All IsSelf leaf
    → read_path (b'/' ∷ (word ++ (b'/' ∷ (t ++ (b'/' ∷ (part ++ (b'/' ∷ (t' ++ (b'/' ∷ leaf)))))))))
      ≡ some (word ∷ s ∷ part ∷ s' ∷ leaf ∷ [])
unfolding join
five-Reads word t s part t' s' leaf h r k r' l =
    read_path-join (word ∷ t ∷ part ∷ t' ∷ leaf ∷ []) (word ∷ s ∷ part ∷ s' ∷ leaf ∷ [])
      (self-Reads word h, (r, (self-Reads part k, (r', (self-Reads leaf l, tt)))))

pub itoa_int-IsByte : (n : ℤ) → All IsByte (itoa_int n)
unfolding itoa_int
itoa_int-IsByte (pos n) = All-weaken _ _ (λ c h. omega arith) (itoa n) (itoa-IsDigit n)
itoa_int-IsByte (negsuc n) =
    (omega arith, All-weaken _ _ (λ c h. omega arith) (itoa (suc n)) (itoa-IsDigit (suc n)))

pub format_bool-IsByte : (b : Bool) → All IsByte (format_bool b)
format_bool-IsByte true = omega arith
format_bool-IsByte false = omega arith

module _ {ℓ} (S : Session) {A : Type ℓ} (D : Decoder A) (w : World S.env) where
  pub get-New :
      (path : Bytes) (segments : List Bytes)
      → read_path path ≡ some segments
      → New S
          (Asks S (record { method = method_get; segments = segments; form = [] }))
          w
          (Methods.get S D path w).1
  unfolding Methods.get
  get-New path segments hp =
      perform-New S D method_get path [] segments [] w hp (unfold parse_query in refl)

  -- A request with a form, of which the server reads the values.
  pub form-New :
      (m : Method) (path : Bytes) (segments : List Bytes) (values : Values)
      → read_path path ≡ some segments
      → IsBytes values (sort_strings (keys values))
      → New S
          (Asks S (record { method = m; segments = segments; form = pairs_of values }))
          w
          (Methods.perform S D m path (encode values) w).1
  form-New m path segments values hp hv =
      perform-New S D m path (encode values) segments (pairs_of values) w hp
        (parse_query-encode values hv)

  -- A form of settings, of which the server reads those that are given.
  pub settings-New :
      (m : Method) (path : Bytes) (segments : List Bytes) (given : Values) {values : Values}
      → read_path path ≡ some segments
      → values ≡ settings given
      → NodupKeys given
      → HasBytes given
      → New S
          (Asks S (record { method = m; segments = segments; form = flat (arrange given) }))
          w
          (Methods.perform S D m path (encode values) w).1
  settings-New m path segments given hp e u b =
      subst
        (λ values.
          New S (Asks S (record { method = m; segments = segments; form = flat (arrange given) })) w
            (Methods.perform S D m path (encode values) w).1)
        (sym e)
        (subst
          (λ form.
            New S (Asks S (record { method = m; segments = segments; form = form })) w
              (Methods.perform S D m path (encode (settings given)) w).1)
          (pairs_of-settings given u)
          (form-New m path segments (settings given) hp (settings-IsBytes given u b)))

  -- One field.
  pub field-New :
      (m : Method) (path : Bytes) (segments : List Bytes) (k v : Bytes)
      → read_path path ≡ some segments
      → All IsByte k
      → All IsByte v
      → New S
          (Asks S (record { method = m; segments = segments; form = (k, v) ∷ [] }))
          w
          (Methods.perform S D m path (encode (set k v [])) w).1
  unfolding set insert sort_strings
  field-New m path segments k v hp hk hv =
      subst
        (λ form.
          New S (Asks S (record { method = m; segments = segments; form = form })) w
            (Methods.perform S D m path (encode ((k, v ∷ []) ∷ [])) w).1)
        (ap (λ o. value_pairs k (value_or [] o) ++ []) held_there)
        (form-New m path segments ((k, v ∷ []) ∷ []) hp
          (hk, subst (λ o. All (All IsByte) (value_or [] o)) (sym held_there) (hv, tt), tt))
    where
      held_there : lookup k ((k, v ∷ []) ∷ []) ≡ some (v ∷ [])
      held_there = lookup-cons k k (v ∷ []) [] ∙ rw ((bytes_eq_iff k k).1 refl) refl

pub delete-New :
    (S : Session) (w : World S.env) (path : Bytes) (segments : List Bytes)
    → read_path path ≡ some segments
    → New S
        (Asks S (record { method = method_delete; segments = segments; form = [] }))
        w
        (Methods.delete S path w).1
unfolding Methods.delete
delete-New S w path segments hp =
    perform-New S no_value method_delete path [] segments [] w hp (unfold parse_query in refl)
