-- ===== src/Messenger/Queues.antt =====
-- Lists of messages against the list of all that was sent.
use kmod_ceph.Base.{
  ℕ, zero, suc, ◌+◌, ◌≤◌, ◌≡◌, refl, subst, ap, ◌⊎◌, inl, inr, true, false, some, List, [], ◌∷◌,
  ◌++◌, arith, ltb, Bool-cases, length, get_elem?, take, length-take, Bool, true, false,
}
use kmod_ceph.Messenger.{Msg, unacked}

-- Message n, counted from 0, with its number.
abbrev pub IsNumbered : List ℕ → ℕ → Msg → Type 0
IsNumbered sent n m = (get_elem? sent n ≡ some m.body) × (m.needs_out_seq ≡ false) × (m.seq ≡ n + 1)

-- Messages from n on, in the order in which they were sent.
abbrev pub Numbered : List ℕ → ℕ → List Msg → Type 0
Numbered sent n [] = Unit
Numbered sent n (m ∷ ms) = IsNumbered sent n m × Numbered sent (n + 1) ms

abbrev pub IsFresh : List ℕ → ℕ → Msg → Type 0
IsFresh sent n m = (get_elem? sent n ≡ some m.body) × (m.needs_out_seq ≡ true)

-- The same, for messages that have no number yet.
abbrev pub Fresh : List ℕ → ℕ → List Msg → Type 0
Fresh sent n [] = Unit
Fresh sent n (m ∷ ms) = IsFresh sent n m × Fresh sent (n + 1) ms

get_elem?-grow :
    (sent : List ℕ) (x n b : ℕ) → get_elem? sent n ≡ some b → get_elem? (sent ++ x ∷ []) n ≡ some b
get_elem?-grow [] x n b h = absurd (cc)
get_elem?-grow (y ∷ sent) x zero b h = h
get_elem?-grow (y ∷ sent) x (suc n) b h = get_elem?-grow sent x n b h

pub get_elem?-end : (sent : List ℕ) (x : ℕ) → get_elem? (sent ++ x ∷ []) (length sent) ≡ some x
get_elem?-end [] x = refl
get_elem?-end (y ∷ sent) x = get_elem?-end sent x

pub Numbered-grow :
    (sent : List ℕ) (x n : ℕ) (ms : List Msg) → Numbered sent n ms → Numbered (sent ++ x ∷ []) n ms
Numbered-grow sent x n [] h = tt
Numbered-grow sent x n (m ∷ ms) ((at, given, number), rest) =
    ((get_elem?-grow sent x n m.body at, given, number), Numbered-grow sent x (n + 1) ms rest)

pub Fresh-grow :
    (sent : List ℕ) (x n : ℕ) (ms : List Msg) → Fresh sent n ms → Fresh (sent ++ x ∷ []) n ms
Fresh-grow sent x n [] h = tt
Fresh-grow sent x n (m ∷ ms) ((at, needs), rest) =
    ((get_elem?-grow sent x n m.body at, needs), Fresh-grow sent x (n + 1) ms rest)

pub Numbered-append :
    (sent : List ℕ) (n k : ℕ) (ms ms' : List Msg)
    → k ≡ n + length ms
    → Numbered sent n ms
    → Numbered sent k ms'
    → Numbered sent n (ms ++ ms')
Numbered-append sent n k [] ms' e h h' =
    let e' : k ≡ n = omega (arith, e) in subst (λ (j : ℕ). Numbered sent j ms') e' h'
Numbered-append sent n k (m ∷ ms) ms' e h h' =
    (h.0, Numbered-append sent (n + 1) k ms ms' (omega (arith, e)) h.1 h')

pub Fresh-snoc :
    (sent : List ℕ) (n k : ℕ) (ms : List Msg) (m : Msg)
    → k ≡ n + length ms
    → Fresh sent n ms
    → IsFresh sent k m
    → Fresh sent n (ms ++ m ∷ [])
Fresh-snoc sent n k [] m e h h' =
    let e' : k ≡ n = omega (arith, e) in (subst (λ (j : ℕ). IsFresh sent j m) e' h', tt)
Fresh-snoc sent n k (x ∷ ms) m e h h' =
    (h.0, Fresh-snoc sent (n + 1) k ms m (omega (arith, e)) h.1 h')

-- An ack of n removes messages up to number n only.
pub unacked_lem :
    (sent : List ℕ) (n a : ℕ) (ms : List Msg)
    → Numbered sent n ms
    → (j : ℕ) × Numbered sent j (unacked a ms)
      × (j + length (unacked a ms) ≡ n + length ms)
      × (n ≤ j)
      × ((j ≡ n) ⊎ (j ≤ a))
unfolding unacked
unacked_lem sent n a [] h = (n, tt, refl, omega arith, inl refl)
unacked_lem sent n a (m ∷ ms) (first, rest) = elim (Bool-cases (ltb a m.seq)) [
  | inl later ↦ (n, rw later (first, rest), rw later refl, omega arith, inl refl)
  | inr reached ↦
      let number = first.2 in
      let (j, left, count, more, bound) = unacked_lem sent (n + 1) a ms rest in
      let le : n + 1 ≤ a = ground arith in
      (
        j,
        rw reached left,
        rw reached (omega arith),
        omega arith,
        inr (elim bound [ inl e ↦ omega arith | inr b ↦ b ]),
      )
]

pub take-next :
    (sent : List ℕ) (n b : ℕ)
    → get_elem? sent n ≡ some b
    → take (n + 1) sent ≡ take n sent ++ b ∷ []
take-next [] n b h = absurd (cc)
take-next (x ∷ sent) zero b h = let e : x ≡ b = cc in ap (λ (y : ℕ). y ∷ []) e
take-next (x ∷ sent) (suc n) b h =
    let e : suc n + 1 ≡ suc (n + 1) = omega arith in
    rw e (ap (λ (t : List ℕ). x ∷ t) (take-next sent n b h))

-- The messages that were dispatched, of those that the receiver counted.
abbrev pub kept : List Bool → List ℕ → List ℕ
kept [] xs = []
kept (f ∷ fs) [] = []
kept (true ∷ fs) (x ∷ xs) = x ∷ kept fs xs
kept (false ∷ fs) (x ∷ xs) = kept fs xs

abbrev pub if_kept : Bool → ℕ → List ℕ
if_kept true x = x ∷ []
if_kept false x = []

kept-snoc :
    (fs : List Bool) (f : Bool) (xs : List ℕ) (x : ℕ)
    → length fs ≡ length xs
    → kept (fs ++ f ∷ []) (xs ++ x ∷ []) ≡ kept fs xs ++ if_kept f x
kept-snoc [] true [] x h = refl
kept-snoc [] false [] x h = refl
kept-snoc [] f (y ∷ xs) x h = absurd (omega arith)
kept-snoc (g ∷ fs) f [] x h = absurd (omega arith)
kept-snoc (true ∷ fs) f (y ∷ xs) x h =
    ap (λ (t : List ℕ). y ∷ t) (kept-snoc fs f xs x (omega arith))
kept-snoc (false ∷ fs) f (y ∷ xs) x h = kept-snoc fs f xs x (omega arith)

-- The next message is counted.
pub kept-next :
    (fs : List Bool) (f : Bool) (sent : List ℕ) (n b : ℕ)
    → length fs ≡ n
    → n ≤ length sent
    → get_elem? sent n ≡ some b
    → kept (fs ++ f ∷ []) (take (n + 1) sent) ≡ kept fs (take n sent) ++ if_kept f b
kept-next fs f sent n b size le h =
    let l = length-take n sent in
    rw (take-next sent n b h) (kept-snoc fs f (take n sent) b (omega arith))

pub take-grow : (sent ys : List ℕ) (n : ℕ) → n ≤ length sent → take n (sent ++ ys) ≡ take n sent
take-grow sent ys zero h = refl
take-grow [] ys (suc n) h = absurd (omega arith)
take-grow (x ∷ sent) ys (suc n) h = ap (λ (t : List ℕ). x ∷ t) (take-grow sent ys n (omega arith))
