-- ===== src/OAuth/Server/Chain.antt =====
-- The chains of middleware: which handlers run, and in what order.
use microgateway.Common.{
  String, ◌≡◌, refl, ap, fun_ext, ◌∙◌, Bool, true, false, ◌||◌, Option, none, some, List, [], ◌∷◌,
  ◌++◌, all, not, inl, inr, Bool-cases, if◌then◌else◌, ◌==◌,
}
use microgateway.OAuth.Server.{
  Server, Layer, Handler, Reply, proceed, report, throw, hold, End, finished, failed, waiting,
  on_reply, run_chain, is_type, exchange, exchange_type, token,
}

module _ {S E : Type 0} where
  -- go on with `rest` where the first part of the chain has finished
  abbrev pub then_run : End E × S → (S → End E × S) → End E × S
  then_run (finished, s) rest = rest s
  then_run (failed e, s) rest = (failed e, s)
  then_run (waiting, s) rest = (waiting, s)

module _ {T S E : Type 0} (applies : Option T → Bool) where
  on_reply-then_run :
      (r : Reply E × S) (one : S → End E × S) (rest : S → End E × S)
      → on_reply (λ s. then_run (one s) rest) r ≡ then_run (on_reply one r) rest
  on_reply-then_run (proceed, s) one rest = refl
  on_reply-then_run (report e, s) one rest = refl
  on_reply-then_run (throw e, s) one rest = refl
  on_reply-then_run (hold, s) one rest = refl

  run_chain-append :
      (xs ys : List (Layer T (Handler S E))) (s : S)
      → run_chain applies (xs ++ ys) s ≡ then_run (run_chain applies xs s) (run_chain applies ys)
  unfolding run_chain
  run_chain-append [] ys s = refl
  run_chain-append (l ∷ xs) ys s = elim (Bool-cases (applies l.type)) [
    | inl e ↦
        rw (e, run_chain)
          (ap (λ f. on_reply f (l.handle s)) (fun_ext (run_chain-append xs ys))
            ∙ on_reply-then_run (l.handle s) (run_chain applies xs) (run_chain applies ys))
    | inr e ↦ rw (e, run_chain) (run_chain-append xs ys s)
  ]

  run_chain_none :
      (xs : List (Layer T (Handler S E))) (s : S)
      → all (λ l. not (applies l.type)) xs ≡ true
      → run_chain applies xs s ≡ (finished, s)
  unfolding run_chain
  run_chain_none [] s h = refl
  run_chain_none (l ∷ xs) s h = elim (Bool-cases (applies l.type)) [
    | inl e ↦ cc (rw e at h)
    | inr e ↦ rw (e, run_chain) (run_chain_none xs s (rw e at h))
  ]

module _ {R : Type 0} (r k : R) where
  elim-if : (b : Bool) → (elim b as (λ b. R) [ false ↦ k | true ↦ r ]) ≡ (if b then r else k)
  elim-if true = refl
  elim-if false = refl

  one_layer :
      (star : Bool) (t type : String)
      → (elim (is_type type (if star then none else some t)) as (λ b. R) [ false ↦ k | true ↦ r ])
        ≡ (if star || t == type then r else k)
  one_layer true t type = refl
  one_layer false t type = elim-if (t == type)

module _ {S E : Type 0} (server : Server S E) where
  -- An exchange that is registered runs after all earlier ones, where these finish, if its type is
  -- the requested grant type or '*'; else the outcome is that of the earlier ones.
  pub exchange_type-exchange :
      (t : String) (h : Handler S E) (type : String) (s : S)
      → exchange_type (exchange server t h) type s
        ≡ then_run (exchange_type server type s) (λ s'.
          if t == "*" || t == type
          then on_reply (λ s''. (finished, s'')) (h s')
          else (finished, s'))
  unfolding exchange_type exchange
  exchange_type-exchange t h type s =
      run_chain-append (is_type type) server.exchanges _ s
      ∙ ap (then_run (run_chain (is_type type) server.exchanges s))
          (fun_ext (λ s'. one_layer _ _ (t == "*") t type))

  -- A token request whose grant type no registered exchange takes gets the error for an
  -- unsupported grant type, and changes nothing.
  token_unsupported :
      (unsupported : String → E) (type : String) (s : S)
      → all (λ l. not (is_type type l.type)) server.exchanges ≡ true
      → token unsupported server type s ≡ (failed (unsupported type), s)
  unfolding token exchange_type
  token_unsupported unsupported type s h = rw (run_chain_none (is_type type) server.exchanges s h)

-- Without an exchange for the type the chain finishes at once.
pub exchange_type_none :
    {S E : Type 0} (server : Server S E) (type : String) (s : S)
    → all (λ l. not (is_type type l.type)) server.exchanges ≡ true
    → exchange_type server type s ≡ (finished, s)
unfolding exchange_type
exchange_type_none server type s h = run_chain_none (is_type type) server.exchanges s h

-- The endpoint for a chain that fails, and for one that finishes.
pub token_failed :
    {S E : Type 0} (unsupported : String → E) (server : Server S E) (type : String) (s s' : S)
    (e : E)
    → exchange_type server type s ≡ (failed e, s')
    → token unsupported server type s ≡ (failed e, s')
unfolding token
token_failed unsupported server type s s' e h = rw h refl

pub token_waiting :
    {S E : Type 0} (unsupported : String → E) (server : Server S E) (type : String) (s s' : S)
    → exchange_type server type s ≡ (waiting, s')
    → token unsupported server type s ≡ (waiting, s')
unfolding token
token_waiting unsupported server type s s' h = rw h refl

pub token_finished :
    {S E : Type 0} (unsupported : String → E) (server : Server S E) (type : String) (s s' : S)
    → exchange_type server type s ≡ (finished, s')
    → token unsupported server type s ≡ (failed (unsupported type), s')
unfolding token
token_finished unsupported server type s s' h = rw h refl
