-- ===== src/Client/Sends.antt =====
-- What a call asks of the service, as a server reads it: method, segments of the path, form pairs.
use hrobot_go.Base.{
  ap, ◌∙◌, ℕ, ◌≡◌, refl, sym, List, [], ◌∷◌, ◌++◌, Bytes, some, false, subst, All, All-weaken,
}
use hrobot_go.Url.Query.{parse_query}
use hrobot_go.Url.Path.{read_path}
use hrobot_go.Client.World.{Method, Request, World, Exchange}
use hrobot_go.Client.Json.{Decoder}
use hrobot_go.Client.Request.{Outcome, received, failed, do_request, request_to}
use hrobot_go.Client.Request.Trace.{IsTrace}
use hrobot_go.Client.Request.Laws.{do_request-Ends}
use hrobot_go.Client.Request.Frame.{behind, shift, do_request-shift}
use hrobot_go.Client.Methods.{Session, perform, respond}

-- What a request asks: `segments` are the path's behind the base URL.
pub record Ask : Type 0 where
  pub method : Method
  pub segments : List Bytes
  pub form : List (Bytes × Bytes)

module _ (S : Session) where
  -- A server, to which the base URL belongs, reads this from the request.
  abbrev pub Asks : Ask → Request → Type 0
  Asks a r =
      (r.method ≡ a.method)
      × ((path : Bytes) × (r.url ≡ S.client.base_url ++ path) × (read_path path ≡ some a.segments))
      × (parse_query r.body ≡ record { pairs = a.form; failed = false })

  -- Of a run from a world in which nothing was sent: every request asks this, and nothing else.
  abbrev AllAsk : Ask → World S.env → Type 0
  AllAsk a w = All (λ x. Asks a x.request) w.exchanges

  IsTrace-AllAsk :
      (a : Ask) (m : Method) (path body : Bytes) (xs : List Exchange)
      → IsTrace S.env S.client m path body xs
      → Asks a (request_to S.env S.client m path body)
      → All (λ x. Asks a x.request) xs
  IsTrace-AllAsk a m path body [] h asks = tt
  IsTrace-AllAsk a m path body (x ∷ xs) h asks =
      (rw (h.0) asks, All-weaken _ _ (λ y r. rw (r.1) asks) xs h.1)

  respond-world {ℓ} :
      {A : Type ℓ} (D : Decoder A) (p : Outcome × World S.env) → (respond S D p).1 ≡ p.1
  respond-world D (received r, w) = refl
  respond-world D (failed e, w) = refl

  -- A call that performs one request asks what a server reads from that request.
  perform-AllAsk {ℓ} :
      {A : Type ℓ} (D : Decoder A) (m : Method) (path body : Bytes) (segments : List Bytes)
      (form : List (Bytes × Bytes)) (w : World S.env)
      → read_path path ≡ some segments
      → parse_query body ≡ record { pairs = form; failed = false }
      → w.exchanges ≡ []
      → w.waits ≡ []
      → AllAsk
          (record { method = m; segments = segments; form = form })
          (perform S D m path body w).1
  unfolding perform
  perform-AllAsk D m path body segments form w hp hb x v =
      subst (AllAsk asked) (sym (respond-world D run)) (
        IsTrace-AllAsk asked m path body run.1.exchanges
          (do_request-Ends S.env S.client m path body w x v).trace (refl, (path, refl, hp), hb))
    where
      asked : Ask
      asked = record { method = m; segments = segments; form = form }

      run : Outcome × World S.env
      run = do_request S.env S.client m path body w

  -- The requests that lead from a world to another, the latest first, and what they ask.
  abbrev pub New : (Request → Type 0) → World S.env → World S.env → Type 0
  New P w w' = (xs : List Exchange) × (w'.exchanges ≡ xs ++ w.exchanges) × All (λ x. P x.request) xs

  respond-shift {ℓ} :
      {A : Type ℓ} (D : Decoder A) (ys : List Exchange) (vs : List ℕ) (p : Outcome × World S.env)
      → (respond S D (shift S.env S.client ys vs p)).1 ≡ behind S.env S.client ys vs p.1
  respond-shift D ys vs (received r, w) = refl
  respond-shift D ys vs (failed e, w) = refl

  -- From any world, every request that such a call adds asks this.
  pub perform-New {ℓ} :
      {A : Type ℓ} (D : Decoder A) (m : Method) (path body : Bytes) (segments : List Bytes)
      (form : List (Bytes × Bytes)) (w : World S.env)
      → read_path path ≡ some segments
      → parse_query body ≡ record { pairs = form; failed = false }
      → New
          (Asks (record { method = m; segments = segments; form = form }))
          w
          (perform S D m path body w).1
  unfolding perform
  perform-New D m path body segments form w hp hb =
      let fresh : World S.env = record w { exchanges = []; waits = [] } in
      let run = do_request S.env S.client m path body fresh in
      (
        run.1.exchanges,
        ap (λ p. (respond S D p).1.exchanges)
              (do_request-shift S.env S.client w.exchanges w.waits m path body fresh)
            ∙ ap (λ (v : World S.env). v.exchanges) (respond-shift D w.exchanges w.waits run),
        subst (AllAsk (record { method = m; segments = segments; form = form }))
            (respond-world D run)
            (perform-AllAsk D m path body segments form fresh hp hb refl refl),
      )
