-- ===== src/Routes/App/Unmatched.antt =====
-- What the application answers on a path that no route has.
use chargeback_iq.Prelude.{
  String, none, some, Bool, true, false, not, ◌&&◌, ◌||◌, List, [], ◌∷◌, ◌≡◌, refl, ap, ◌∙◌, arith,
  if◌then◌else◌,
}
use chargeback_iq.Schema.{Db, Env}
use chargeback_iq.Routes.{not_found_handler}
use chargeback_iq.Routes.App.{
  Setup, HttpRequest, name_of, Handler, is_post, is_get, is_read, when, unmatched, dispute_router,
  compliance_router, reference_router, api, route, parsed, webhook_of, first_router, handle,
}

-- The routes of the application: an independent table of their methods and paths.
abbrev pub is_route :
    (same_segment : String → String → Bool) → (reads posts : Bool) → (segments : List String) → Bool
is_route same reads posts [] = false
is_route same reads posts (a ∷ []) = reads && (same "health" a || same "ready" a)
is_route same reads posts (a ∷ b ∷ []) =
    posts && same "webhooks" a
    || same "api" a && (posts && same "disputes" b || reads && same "compliance" b)
is_route same reads posts (a ∷ b ∷ c ∷ []) =
    same "api" a
    && (reads
        && (same "disputes" b
            || same "reference" b
              && (same "statuses" c || (same "transitions" c || same "deadline-rules" c))))
is_route same reads posts (a ∷ b ∷ c ∷ d ∷ []) =
    same "api" a
    && (same "disputes" b
        && (posts && (same "status" d || same "evidence" d)
            || reads && same "evidence-requirements" d))
is_route same reads posts (a ∷ b ∷ c ∷ d ∷ e ∷ []) =
    same "api" a && (same "reference" b && (reads && same "reason-codes" c))
is_route same reads posts (a ∷ b ∷ c ∷ d ∷ e ∷ more ∷ rest) = false

module _ {J : Type 0} (setup : Setup J) (env : Env) (req : HttpRequest J) where
  abbrev missed : Handler
  missed = unmatched setup env req

  not_taken : (b : Bool) (h k : Handler) → b ≡ false → k ≡ missed → (if b then h else k) ≡ missed
  not_taken true h k b m = cc
  not_taken false h k b m = m

  both_miss :
      (b : Bool) (h k : Handler)
      → (b ≡ true → h ≡ missed)
      → (b ≡ false → k ≡ missed)
      → (if b then h else k) ≡ missed
  both_miss true h k p q = p refl
  both_miss false h k p q = q refl

  not_when : (b : Bool) (h : Handler) → b ≡ false → when setup env req b h ≡ missed
  not_when true h b = cc
  not_when false h b = refl

  -- The routers, on what follows their prefixes.
  disputes_miss :
      (body : J) (a b : String) (rest : List String)
      → setup.same_segment "api" a ≡ true
      → setup.same_segment "disputes" b ≡ true
      → is_route setup.same_segment (is_read req.method) (is_post req.method) (a ∷ b ∷ rest) ≡ false
      → dispute_router setup env req body rest ≡ missed
  unfolding dispute_router
  disputes_miss body a b [] p q h = not_when (is_post req.method) _ (ground arith)
  disputes_miss body a b (c ∷ []) p q h = not_when (is_read req.method) _ (ground arith)
  disputes_miss body a b (c ∷ d ∷ []) p q h =
      not_taken (is_post req.method && setup.same_segment "status" d) _ _ (ground arith) (
        not_taken (is_post req.method && setup.same_segment "evidence" d) _ _ (ground arith) (
          not_when (is_read req.method && setup.same_segment "evidence-requirements" d) _
            (ground arith)))
  disputes_miss body a b (c ∷ d ∷ more ∷ rest) p q h = refl

  compliance_misses :
      (a b : String) (rest : List String)
      → setup.same_segment "api" a ≡ true
      → setup.same_segment "compliance" b ≡ true
      → is_route setup.same_segment (is_read req.method) (is_post req.method) (a ∷ b ∷ rest) ≡ false
      → compliance_router setup env req rest ≡ missed
  unfolding compliance_router
  compliance_misses a b [] p q h = not_when (is_read req.method) _ (ground arith)
  compliance_misses a b (c ∷ rest) p q h = refl

  reference_misses :
      (a b : String) (rest : List String)
      → setup.same_segment "api" a ≡ true
      → setup.same_segment "reference" b ≡ true
      → is_route setup.same_segment (is_read req.method) (is_post req.method) (a ∷ b ∷ rest) ≡ false
      → reference_router setup env req rest ≡ missed
  unfolding reference_router
  reference_misses a b [] p q h = refl
  reference_misses a b (c ∷ []) p q h =
      not_taken (is_read req.method && setup.same_segment "statuses" c) _ _ (ground arith) (
        not_taken (is_read req.method && setup.same_segment "transitions" c) _ _ (ground arith)
          (not_when (is_read req.method && setup.same_segment "deadline-rules" c) _ (ground arith)))
  reference_misses a b (c ∷ d ∷ []) p q h = refl
  reference_misses a b (c ∷ d ∷ e ∷ []) p q h =
      not_when (is_read req.method && setup.same_segment "reason-codes" c) _ (ground arith)
  reference_misses a b (c ∷ d ∷ e ∷ more ∷ rest) p q h = refl

  route_misses :
      (body : J) (segments : List String)
      → req.is_limited ≡ false
      → is_route setup.same_segment (is_read req.method) (is_post req.method) segments ≡ false
      → route setup env req body segments ≡ missed
  unfolding route api
  route_misses body [] l h = refl
  route_misses body (a ∷ []) l h =
      not_taken (is_read req.method && setup.same_segment "health" a) _ _ (ground arith)
        (not_when (is_read req.method && setup.same_segment "ready" a) _ (ground arith))
  route_misses body (a ∷ b ∷ rest) l h =
      both_miss (setup.same_segment "api" a) _ _
        (λ p.
          both_miss (setup.same_segment "disputes" b) _ _
            (λ q.
              not_taken (not (is_get req.method) && req.is_limited) _ _ (ground arith)
                (disputes_miss body a b rest p q h))
            (λ _.
              both_miss (setup.same_segment "compliance" b) _ _
                (λ q. compliance_misses a b rest p q h)
                (λ _.
                  both_miss (setup.same_segment "reference" b) _ _
                    (λ q. reference_misses a b rest p q h) (λ _. refl))))
        (λ _. refl)

  no_webhook :
      (segments : List String)
      → is_route setup.same_segment (is_read req.method) (is_post req.method) segments ≡ false
      → webhook_of setup env req segments ≡ none
  no_webhook [] h = refl
  no_webhook (a ∷ []) h = refl
  no_webhook (a ∷ b ∷ []) h = ground arith
  no_webhook (a ∷ b ∷ c ∷ rest) h = refl

-- A request of no route of the table, whose body the parser accepts and which the limiter of writes
-- does not refuse, is answered with 404 and the method and the path, and the database is as it was.
pub handle_unmatched :
    {J : Type 0} (setup : Setup J) (env : Env) (req : HttpRequest J) (body : J) (db : Db)
    → is_route setup.same_segment (is_read req.method) (is_post req.method) req.segments ≡ false
    → req.json ≡ some body
    → req.is_limited ≡ false
    → handle setup env req db ≡ (not_found_handler (name_of req.method) req.path, db)
unfolding handle
handle_unmatched setup env req body db h j l =
    ap (λ p. first_router setup env req p db) (no_webhook setup env req req.segments h)
    ∙ ap (λ o. parsed setup env req o db) j
    ∙ ap (λ k. k db) (route_misses setup env req body req.segments l h)
