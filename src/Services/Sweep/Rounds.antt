-- ===== src/Services/Sweep/Rounds.antt =====
-- The rounds of the sweep, one after the other: what each does to a case that waits for its turn.
use mathlib.Core.Option
use chargeback_iq.Prelude.{
  String, some, List, [], ◌∷◌, ◌≡◌, ◌≢◌, refl, sym, ap, subst, ◌∙◌, arith, inl, inr, ◌⊎◌, dec_text,
  ==_refl, ==_ne, find, In,
}
use chargeback_iq.Errors.{Thrown}
use chargeback_iq.Schema.{Db, Env, Dispute}
use chargeback_iq.Tx.{Outcome, returned, threw, rolled_back}
use chargeback_iq.Tx.Laws.{bind-eq-returned, returned-value, returned-state}
use chargeback_iq.Repositories.Disputes.{has_id}
use chargeback_iq.Services.DisputeService.{change_status}
use chargeback_iq.Services.DisputeService.ChangeStatus.{
  change_status-IsChanged, after_change, moved,
}
use chargeback_iq.Services.DisputeService.Rows.{moved_row, find-after_change}
use chargeback_iq.Services.DisputeService.Draws.{change_status_drawn}
use chargeback_iq.Services.Sweep.{
  Pushed, expired, skipped, expiry_of, code_of, expire_one, expire_each, expired_of,
}
use chargeback_iq.Services.Sweep.Fresh.{
  HasFreshIds, CanExpire, expiry_returns, fresh_after_change, fresh_after_rollback,
}

-- The dispute with the id is EXPIRED.
pub record HasExpired (db : Db) (id : String) : Type 0 where
  pub row : Dispute
  pub found : find (has_id id) db.disputes ≡ some row
  pub status : row.status_code ≡ "EXPIRED"

-- The case is as it was listed, and can expire.
pub record Waits (env : Env) (s : Db) (d : Dispute) : Type 0 where
  pub fresh : HasFreshIds env s
  pub can : CanExpire s d
  pub found : find (has_id d.id) s.disputes ≡ some d

In-push :
    (id : String) (p : Pushed) (qs : List Pushed)
    → In id (expired_of qs)
    → In id (expired_of (p ∷ qs))
In-push id (expired e) qs j = inr j
In-push id (skipped k) qs j = j

module _ (env : Env) where
  -- How a round ends.
  abbrev Ends : Dispute → Db → Pushed → Db → Type 0
  Ends x s p s' =
      ((u : Dispute) × (change_status env (expiry_of x) s ≡ returned u s') × (p ≡ expired u.id))
      ⊎ ((e : Thrown) × (change_status env (expiry_of x) s ≡ threw e s'))

  expire_one-Ends :
      (x : Dispute) (s : Db) (p : Pushed) (s' : Db)
      → expire_one env x s ≡ returned p s'
      → Ends x s p s'
  unfolding expire_one
  expire_one-Ends x s p s' h = ended (change_status env (expiry_of x) s) refl
    where
      ended : (o : Outcome Dispute) → change_status env (expiry_of x) s ≡ o → Ends x s p s'
      ended (returned u t) e =
          let same : returned (expired u.id) t ≡ returned p s' = ground arith in
          inl (u, e ∙ ap (returned u) (sym (returned-state same)), returned-value same)
      ended (threw y t) e =
          let same : returned
                (skipped (record { id = x.id; status = x.status_code; reason = code_of y })) t
              ≡ returned p s' =
            ground arith in
          inr (y, e ∙ ap (threw y) (sym (returned-state same)))

  -- The round of another case leaves the case waiting.
  other-Waits :
      (x d : Dispute) (s : Db) (p : Pushed) (s' : Db)
      → x.id ≢ d.id
      → expire_one env x s ≡ returned p s'
      → Waits env s d
      → Waits env s' d
  unfolding rolled_back
  other-Waits x d s p s' other h w = of_end (expire_one-Ends x s p s' h)
    where
      of_end : Ends x s p s' → Waits env s' d
      of_end (inl (u, e, same)) =
          let c = change_status-IsChanged env (expiry_of x) s u s' e in
          let kept : moved_row env (expiry_of x) s c.current d ≡ d =
            ground (arith, ==_ne d.id x.id (λ q. other (sym q))) in
          subst (λ t. Waits env t d) (sym c.state)
            (record {
              fresh = fresh_after_change env (expiry_of x) s c.current w.fresh;
              can = record {
                status = w.can.status;
                target = w.can.target;
                row = w.can.row;
                found = w.can.found;
                free = w.can.free;
              };
              found =
                  find-after_change env (expiry_of x) s c.current d.id
                  ∙ ap (Option.map (moved_row env (expiry_of x) s c.current)) w.found
                  ∙ ap some kept;
            })
      of_end (inr (y, e)) =
          let (after, state, more) = change_status_drawn env (expiry_of x) s y s' e in
          subst (λ t. Waits env t d) (sym state)
            (record {
              fresh = fresh_after_rollback env s after more w.fresh;
              can = record {
                status = w.can.status;
                target = w.can.target;
                row = w.can.row;
                found = w.can.found;
                free = w.can.free;
              };
              found = w.found;
            })

  -- No round takes a case out of EXPIRED.
  expired_stays :
      (x : Dispute) (id : String) (s : Db) (p : Pushed) (s' : Db)
      → expire_one env x s ≡ returned p s'
      → HasExpired s id
      → HasExpired s' id
  unfolding rolled_back
  expired_stays x id s p s' h w = of_end (expire_one-Ends x s p s' h)
    where
      of_end : Ends x s p s' → HasExpired s' id
      of_end (inl (u, e, same)) =
          let c = change_status-IsChanged env (expiry_of x) s u s' e in
          subst (λ t. HasExpired t id) (sym c.state)
            (record {
              row = moved_row env (expiry_of x) s c.current w.row;
              found =
                  find-after_change env (expiry_of x) s c.current id
                  ∙ ap (Option.map (moved_row env (expiry_of x) s c.current)) w.found;
              status = ground (arith, w.status);
            })
      of_end (inr (y, e)) =
          let (after, state, more) = change_status_drawn env (expiry_of x) s y s' e in
          subst (λ t. HasExpired t id) (sym state)
            (record { row = w.row; found = w.found; status = w.status })

  -- The round of the case itself expires it.
  expires :
      (d : Dispute) (s : Db) (p : Pushed) (s' : Db)
      → expire_one env d s ≡ returned p s'
      → Waits env s d
      → (p ≡ expired d.id) × HasExpired s' d.id
  expires d s p s' h w = of_end (expire_one-Ends d s p s' h)
    where
      done :
          change_status env (expiry_of d) s
          ≡ returned (moved env (expiry_of d) s d) (after_change env (expiry_of d) s d)
      done = expiry_returns env s d w.fresh w.can w.found

      of_end : Ends d s p s' → (p ≡ expired d.id) × HasExpired s' d.id
      of_end (inl (u, e, same)) =
          let back = sym done ∙ e in
          let value : u ≡ moved env (expiry_of d) s d = returned-value back in
          let id : (moved env (expiry_of d) s d).id ≡ d.id = ground arith in
          (
            same ∙ ap (λ (v : Dispute). expired v.id) value ∙ ap expired id,
            subst (λ t. HasExpired t d.id) (sym (returned-state back))
                (record {
                  row = moved_row env (expiry_of d) s d d;
                  found =
                      find-after_change env (expiry_of d) s d d.id
                      ∙ ap (Option.map (moved_row env (expiry_of d) s d)) w.found;
                  status = ground (arith, ==_refl d.id, ==_refl d.status_code);
                }),
          )
      of_end (inr (y, e)) = absurd (cc (done, e))

  -- The loop expires a waiting case of its list, and leaves it EXPIRED.
  stays_expired :
      (ds : List Dispute) (id : String) (s : Db) (ps : List Pushed) (s' : Db)
      → expire_each env ds s ≡ returned ps s'
      → HasExpired s id
      → HasExpired s' id
  unfolding expire_each
  stays_expired [] id s ps s' h w = subst (λ t. HasExpired t id) (sym (returned-state h)) w
  stays_expired (x ∷ xs) id s ps s' h w =
      let (p, mid, e1, h1) = bind-eq-returned (expire_one env x) _ s ps s' h in
      let (qs, last, e2, h2) = bind-eq-returned (expire_each env xs) _ mid ps s' h1 in
      subst (λ t. HasExpired t id) (sym (returned-state h2))
        (stays_expired xs id mid qs last e2 (expired_stays x id s p mid e1 w))

  -- The rounds of a list expire a case of the list that waits.
  pub expires-Waits :
      (ds : List Dispute) (d : Dispute) (s : Db) (ps : List Pushed) (s' : Db)
      → In d ds
      → ((x : Dispute) → In x ds → x.id ≡ d.id → x ≡ d)
      → expire_each env ds s ≡ returned ps s'
      → Waits env s d
      → In d.id (expired_of ps) × HasExpired s' d.id
  unfolding expire_each
  expires-Waits [] d s ps s' i only h w = elim i [ ]
  expires-Waits (x ∷ xs) d s ps s' i only h w =
      let (p, mid, e1, h1) = bind-eq-returned (expire_one env x) _ s ps s' h in
      let (qs, last, e2, h2) = bind-eq-returned (expire_each env xs) _ mid ps s' h1 in
      let value : ps ≡ p ∷ qs = returned-value h2 in
      subst (λ (rs : List Pushed). In d.id (expired_of rs) × HasExpired s' d.id) (sym value)
        (subst (λ t. In d.id (expired_of (p ∷ qs)) × HasExpired t d.id) (sym (returned-state h2))
          (turn p mid qs last
            (λ other.
              expires-Waits xs d mid qs last (later i other) (λ y j. only y (inr j)) e2
                (other-Waits x d s p mid other e1 w))
            e1 e2 (dec_text x.id d.id)))
    where
      turn :
          (p : Pushed) (mid : Db) (qs : List Pushed) (last : Db)
          → (x.id ≢ d.id → In d.id (expired_of qs) × HasExpired last d.id)
          → expire_one env x s ≡ returned p mid
          → expire_each env xs mid ≡ returned qs last
          → Dec (x.id ≡ d.id)
          → In d.id (expired_of (p ∷ qs)) × HasExpired last d.id
      turn p mid qs last rest e1 e2 (yes same) =
          let (pushed, now_expired) =
            expires d s p mid
              (subst (λ y. expire_one env y s ≡ returned p mid) (only x (inl refl) same) e1) w in
          (
            subst (λ q. In d.id (expired_of (q ∷ qs))) (sym pushed) (inl refl),
            stays_expired xs d.id mid qs last e2 now_expired,
          )
      turn p mid qs last rest e1 e2 (no other) =
          let (found, kept) = rest other in (In-push d.id p qs found, kept)

      later : In d (x ∷ xs) → x.id ≢ d.id → In d xs
      later (inl same) other = absurd (other (ap (λ (y : Dispute). y.id) (sym same)))
      later (inr j) other = j
