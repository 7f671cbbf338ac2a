-- ===== src/Proto/Serve/Reconnect.antt =====
-- How a prompt window gets its links: `connect_forever` and the loop around it, which
-- filewall-ui/src/main.rs and filewall-ui-iced/src/worker.rs have each. An attempt to connect gives
-- a link or an error, and the attempts are given in advance.
use filewall.Prelude.{
  if◌then◌else◌, Bool-cases, inl, inr, drop, sym, ◌∙◌, ℕ, zero, suc, ◌+◌, ◌<◌, Bool, true, false,
  Option, none, some, List, [], ◌∷◌, ◌++◌, length, Result, ok, err, ◌≡◌, ◌≢◌, refl, ap, arith,
}
use filewall.Proto.Frame.{ErrorKind}
use filewall.Proto.Serve.{Served, End, gone}

-- A link, with the seconds that were slept before it and the attempts that are still to come.
pub record Connected (L : Type 0) : Type 0 where
  pub link : L
  pub slept : ℕ
  pub later : List (Result ErrorKind L)

abbrev one_later : {L : Type 0} → Option (Connected L) → Option (Connected L)
one_later none = none
one_later (some c) = some (record c { slept = c.slept + 1 })

-- `connect_forever`: an attempt that fails is made again a second later. It has no result where
-- every attempt that there is fails.
unfoldable pub connect_forever : {L : Type 0} → List (Result ErrorKind L) → Option (Connected L)
connect_forever [] = none
connect_forever (ok link ∷ rest) = some (record { link = link; slept = 0; later = rest })
connect_forever (err e ∷ rest) = one_later (connect_forever rest)

-- Whether the worker stops behind a link that has ended so: the link's `is_break`.
abbrev pub is_break : End → Bool
is_break gone = true
is_break _ = false

module _ {S L : Type 0} (serve : S → L → Served S) where
  unless_gone : Served S → (S → List (Served S)) → List (Served S)
  unless_gone r next = r ∷ (if is_break r.end then [] else next r.state)

  served :
      S → Option (Connected L) → (S → List (Result ErrorKind L) → List (Served S)) → List (Served S)
  unfolding unless_gone
  served s none loop = []
  served s (some c) loop = unless_gone (serve s c.link) (λ t. loop t c.later)

  -- The outer loop, on fuel that each link takes one of.
  unfoldable pub reconnecting : ℕ → S → List (Result ErrorKind L) → List (Served S)
  unfolding served connect_forever
  reconnecting zero s attempts = []
  reconnecting (suc fuel) s attempts = served s (connect_forever attempts) (reconnecting fuel)

  -- The links one after another, none of them tried in vain.
  unfoldable pub on_links : S → List L → List (Served S)
  unfolding unless_gone
  on_links s [] = []
  on_links s (link ∷ links) = unless_gone (serve s link) (λ t. on_links t links)

-- The attempts that give a link.
unfoldable pub links : {L : Type 0} → List (Result ErrorKind L) → List L
links [] = []
links (ok link ∷ rest) = link ∷ links rest
links (err e ∷ rest) = links rest

-- What a search for a link gives, against the links that there are.
IsNext : {L : Type 0} → List (Result ErrorKind L) → Option (Connected L) → Type 0
IsNext attempts none = links attempts ≡ []
IsNext attempts (some c) =
    (links attempts ≡ c.link ∷ links c.later) × (length c.later + c.slept + 1 ≡ length attempts)

IsNext-later :
    {L : Type 0} (e : ErrorKind) (rest : List (Result ErrorKind L)) (o : Option (Connected L))
    → IsNext rest o
    → IsNext (err e ∷ rest) (one_later o)
unfolding links IsNext
IsNext-later e rest none h = h
IsNext-later e rest (some c) (h, k) = (h, omega (arith, k))

-- The link that is found is the first that there is, and a second was slept for each attempt
-- before it.
connect_forever-IsNext :
    {L : Type 0} (attempts : List (Result ErrorKind L)) → IsNext attempts (connect_forever attempts)
unfolding connect_forever links IsNext
connect_forever-IsNext [] = refl
connect_forever-IsNext (ok link ∷ rest) = (refl, omega arith)
connect_forever-IsNext (err e ∷ rest) = IsNext-later e rest _ (connect_forever-IsNext rest)

nil-ne-cons : {A : Type 0} {x : A} {xs : List A} → ¬ ([] ≡ x ∷ xs)
nil-ne-cons h = cc

nil-ne-append : {A : Type 0} (xs : List A) (x : A) (ys : List A) → ¬ ([] ≡ xs ++ x ∷ ys)
nil-ne-append [] x ys h = cc
nil-ne-append (y ∷ xs) x ys h = cc

module _ {S L : Type 0} (serve : S → L → Served S) where
  unless_gone-ap :
      (r : Served S) (f g : S → List (Served S))
      → ((t : S) → f t ≡ g t)
      → unless_gone serve r f ≡ unless_gone serve r g
  unfolding unless_gone
  unless_gone-ap r f g h = ap (λ l. r ∷ (if is_break r.end then [] else l)) (h r.state)

  served-on_links :
      (s : S) (attempts : List (Result ErrorKind L)) (o : Option (Connected L))
      (loop : S → List (Result ErrorKind L) → List (Served S))
      → IsNext attempts o
      → ((t : S) (later : List (Result ErrorKind L))
          → length later < length attempts
          → loop t later ≡ on_links serve t (links later))
      → served serve s o loop ≡ on_links serve s (links attempts)
  unfolding served on_links IsNext
  served-on_links s attempts none loop e ih = rw e refl
  served-on_links s attempts (some c) loop (e, k) ih =
      rw e (unless_gone-ap (serve s c.link) _ _ (λ t. ih t c.later (omega (arith, k))))

  -- Whatever attempts fail in between, the links that there are are served one after another, each
  -- from the state that the one before has left, until the window is gone; more fuel than attempts is
  -- enough.
  pub reconnecting-on_links :
      (fuel : ℕ) (s : S) (attempts : List (Result ErrorKind L))
      → length attempts < fuel
      → reconnecting serve fuel s attempts ≡ on_links serve s (links attempts)
  unfolding reconnecting
  reconnecting-on_links zero s attempts h = absurd (omega (arith, h))
  reconnecting-on_links (suc fuel) s attempts h =
      served-on_links s attempts _ (reconnecting serve fuel) (connect_forever-IsNext attempts)
        (λ t later k. reconnecting-on_links fuel t later (omega (arith, h, k)))

  two_are_left :
      (q : Served S) (tail : List (Served S)) (r r2 : Served S) (after : List (Served S))
      → q ∷ (if is_break q.end then [] else tail) ≡ r ∷ r2 ∷ after
      → r.end ≢ gone
  two_are_left q tail r r2 after h k =
      let behind : (if is_break q.end then [] else tail) ≡ r2 ∷ after = ap (drop 1) h in
      elim (Bool-cases (is_break q.end)) [
        | inl e ↦ absurd (nil-ne-cons (rw e at behind))
        | inr e ↦
            let same : q ≡ r = cc in
            let ends : true ≡ false = sym (ap is_break (ap (λ x. x.end) same ∙ k)) ∙ e in cc
      ]

  -- No link is served behind one on which the window has gone.
  pub on_links_stops :
      (s : S) (ls : List L) (r r2 : Served S) (before after : List (Served S))
      → on_links serve s ls ≡ before ++ r ∷ r2 ∷ after
      → r.end ≢ gone
  unfolding on_links unless_gone
  on_links_stops s [] r r2 [] after h = absurd (nil-ne-cons h)
  on_links_stops s [] r r2 (b ∷ before) after h = absurd (nil-ne-cons h)
  on_links_stops s (l ∷ ls) r r2 [] after h = two_are_left (serve s l) _ r r2 after h
  on_links_stops s (l ∷ ls) r r2 (b ∷ before) after h =
      let behind : (if is_break (serve s l).end then [] else on_links serve (serve s l).state ls)
          ≡ before ++ r ∷ r2 ∷ after =
        ap (drop 1) h in
      elim (Bool-cases (is_break (serve s l).end)) [
        | inl e ↦ absurd (nil-ne-append before r (r2 ∷ after) (rw e at behind))
        | inr e ↦ on_links_stops (serve s l).state ls r r2 before after (rw e at behind)
      ]
