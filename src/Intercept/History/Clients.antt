-- ===== src/Intercept/History/Clients.antt =====
-- dns_intercept.rs: to whom packets are emitted, over any history.
use shadowvpn_ios.Prelude.{
  ℕ, ◌≡◌, inl, inr, refl, sym, subst, some, List, [], ◌∷◌, ◌++◌, All, All-append, Any,
}
use shadowvpn_ios.Packet.{ParsedQuery, txid}
use shadowvpn_ios.Intercept.{
  Setup, State, Random, pending_of, Plan, forward, relay, race, response, begin,
}
use shadowvpn_ios.Intercept.History.{
  World, queries_of, Step, takes, answers, replies, Reachable, start, next,
}
use shadowvpn_ios.Intercept.History.Handlers.{
  IsKnown, IsAnswer, IsAsked, none-some, finish-IsFine, reply-IsFine, send-IsKnown,
}

abbrev pub Inv : World → Type 0
Inv w =
    IsKnown w.asked w.shared × All (IsAsked w.asked) w.waiting × All (IsAnswer w.asked) w.emitted

Any-later :
    (P : ParsedQuery → Type 0) (new asked : List ParsedQuery) → Any P asked → Any P (new ++ asked)
Any-later P [] asked h = h
Any-later P (q ∷ new) asked h = inr (Any-later P new asked h)

All-to {ℓ} :
    {A : Type ℓ} (P Q : A → Type 0) (xs : List A) → ((x : A) → P x → Q x) → All P xs → All Q xs
All-to P Q [] f h = tt
All-to P Q (x ∷ xs) f (p, h) = (f x p, All-to P Q xs f h)

-- A part of the list in the middle, and the rest.
All-middle {ℓ} :
    {A : Type ℓ} (P : A → Type 0) (before : List A) (x : A) (after : List A)
    → All P (before ++ x ∷ after)
    → P x × All P (before ++ after)
All-middle P [] x after (p, h) = (p, h)
All-middle P (b ∷ before) x after (p, h) =
    let (px, rest) = All-middle P before x after h in (px, (p, rest))

IsKnown-later :
    (new asked : List ParsedQuery) (s : State) → IsKnown asked s → IsKnown (new ++ asked) s
IsKnown-later new asked s known id p e =
    Any-later (λ q. (txid q.dns ≡ some id) × (pending_of q ≡ p)) new asked (known id p e)

IsAnswer-later :
    (new asked : List ParsedQuery) (out : List (List ℕ))
    → All (IsAnswer asked) out
    → All (IsAnswer (new ++ asked)) out
IsAnswer-later new asked out h =
    All-to (IsAnswer asked) (IsAnswer (new ++ asked)) out
      (λ packet a. Any-later (λ q. (payload : List ℕ) × (packet ≡ response q payload)) new asked a)
      h

IsAsked-later :
    (new asked : List ParsedQuery) (plans : List Plan)
    → All (IsAsked asked) plans
    → All (IsAsked (new ++ asked)) plans
IsAsked-later new asked plans h =
    All-to (IsAsked asked) (IsAsked (new ++ asked)) plans
      (λ plan a.
        All-to (λ q. Any (λ r. r ≡ q) asked) (λ q. Any (λ r. r ≡ q) (new ++ asked))
          (queries_of plan) (λ q b. Any-later (λ r. r ≡ q) new asked b) a)
      h

own-IsAsked : (plan : Plan) (asked : List ParsedQuery) → IsAsked (queries_of plan ++ asked) plan
own-IsAsked forward asked = tt
own-IsAsked (relay q) asked = (inl refl, tt)
own-IsAsked (race q) asked = (inl refl, tt)

begin-IsKnown :
    (setup : Setup) (rnd : Random) (plan : Plan) (asked : List ParsedQuery) (s : State)
    → IsKnown asked s
    → IsKnown (queries_of plan ++ asked) (begin setup rnd plan s).0
unfolding begin
begin-IsKnown setup rnd forward asked s known = known
begin-IsKnown setup rnd (relay q) asked s known = IsKnown-later (q ∷ []) asked s known
begin-IsKnown setup rnd (race q) asked s known =
    send-IsKnown (q ∷ asked) setup rnd q s (inl refl) (IsKnown-later (q ∷ []) asked s known)

Step-Inv : {setup : Setup} {w w' : World} → Step setup w w' → Inv w → Inv w'
Step-Inv {setup} {w} (takes rnd packet plan e f) (known, waiting, emitted) =
    let new = queries_of plan in
    subst Inv (sym f) (
      begin-IsKnown setup rnd plan w.asked w.shared known,
      (own-IsAsked plan w.asked, IsAsked-later new w.asked w.waiting waiting),
      IsAnswer-later new w.asked w.emitted emitted,
    )
Step-Inv {setup} {w} (answers plan before after answer s out consumed e f g)
      (known, waiting, emitted) =
    let (mine, rest) =
      All-middle (IsAsked w.asked) before plan after (subst (All (IsAsked w.asked)) e waiting) in
    let (known', fine) =
      finish-IsFine w.asked setup plan answer w.shared known mine (s, out, consumed) f in
    subst Inv (sym g) (known', rest, All-append (IsAnswer w.asked) out w.emitted fine emitted)
Step-Inv {setup} {w} (replies plaintext s out consumed e f) (known, waiting, emitted) =
    let (known', fine) = reply-IsFine w.asked setup plaintext w.shared known (s, out, consumed) e in
    subst Inv (sym f) (known', waiting, All-append (IsAnswer w.asked) out w.emitted fine emitted)

Reachable-Inv : {setup : Setup} {w : World} → Reachable setup w → Inv w
Reachable-Inv (start obfuscator) = ((λ id p e. absurd (none-some e)), tt, tt)
Reachable-Inv (next r st) = Step-Inv st (Reachable-Inv r)

-- In every world that can be reached, by any interleaving of queries, domestic answers and tunneled replies:
-- every packet that was emitted goes to the client of a query that was taken, from the server that this
-- client asked; and every pending entry is that of a query that was taken, under its transaction id.
pub emitted-IsAnswer :
    (setup : Setup) (w : World)
    → Reachable setup w
    → All (IsAnswer w.asked) w.emitted × IsKnown w.asked w.shared
emitted-IsAnswer setup w r = let (known, waiting, emitted) = Reachable-Inv r in (emitted, known)
