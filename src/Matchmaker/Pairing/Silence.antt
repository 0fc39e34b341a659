-- ===== src/Matchmaker/Pairing/Silence.antt =====
-- The first loop of `matchmake` (match.py), over and over: how long a client may be silent.
use meet_your_match.Prelude.{
  ℕ, zero, suc, ◌+◌, ◌*◌, ◌≡◌, ◌≢◌, refl, sym, ◌∙◌, ap, List, [], ◌∷◌, arith, All, All-zip,
  All-trivial,
}
use meet_your_match.Python.{ok, pure, gets, values, ◌>>=◌, ◌>>◌, >>=-ok}
use meet_your_match.Member.{Member}
use meet_your_match.Constants.{matchmake_round_time}
use meet_your_match.Matching.{Ref, Store, MatchingData, Action, update}
use meet_your_match.Matchmaker.Pairing.Counters.{
  update_self, update_other, HasMore, silent, silent-zero, silent-tire, tire-HasMore, tired_member,
  expire_client-stays,
}
use meet_your_match.Matchmaker.Pairing.{expire_client, expire}

-- No reference twice.
abbrev pub Distinct : List Ref → Type 0
Distinct [] = Unit
Distinct (r ∷ rs) = All (λ q. r ≢ q) rs × Distinct rs

-- What a round leaves of the objects, if no counter runs out.
tired : List Ref → Store → Store
tired [] f = f
tired (r ∷ rs) f = tired rs (update f r (tired_member (f r)))

tired_other : (rs : List Ref) (f : Store) (q : Ref) → All (λ r. q ≢ r) rs → tired rs f q ≡ f q
unfolding tired
tired_other [] f q h = refl
tired_other (r ∷ rs) f q (apart, h) =
    tired_other rs (update f r (tired_member (f r))) q h
    ∙ update_other f r q (tired_member (f r)) (λ e. apart (sym e))

-- What holds of the members behind references holds of those behind equal ones.
All-along :
    (P : Ref → Member → Type 0) (f g : Store) (rs : List Ref)
    → All (λ r. f r ≡ g r) rs
    → All (λ r. P r (f r)) rs
    → All (λ r. P r (g r)) rs
All-along P f g [] same h = tt
All-along P f g (r ∷ rs) (e, same) (here, h) = (rw (← e) here, All-along P f g rs same h)

All-sym : (f g : Store) (rs : List Ref) → All (λ r. f r ≡ g r) rs → All (λ r. g r ≡ f r) rs
All-sym f g [] same = tt
All-sym f g (r ∷ rs) (e, same) = (sym e, All-sym f g rs same)

update_elsewhere :
    (f : Store) (r : Ref) (m : Member) (rs : List Ref)
    → All (λ q. r ≢ q) rs
    → All (λ q. update f r m q ≡ f q) rs
update_elsewhere f r m [] apart = tt
update_elsewhere f r m (q ∷ rs) (d, apart) =
    (update_other f r q m d, update_elsewhere f r m rs apart)

expire-stays :
    (rs : List Ref) (md : MatchingData) (n : ℕ)
    → Distinct rs
    → All (λ r. HasMore (matchmake_round_time + n) (md.objects r)) rs
    → expire rs md ≡ (ok tt, record md { objects = tired rs md.objects })
unfolding expire tired
expire-stays [] md n d h = refl
expire-stays (r ∷ rs) md n (apart, d) (here, h) =
    let after = record md { objects = update md.objects r (tired_member (md.objects r)) } in
    >>=-ok (expire_client r) (λ _. expire rs) (expire_client-stays r md n here)
    ∙ expire-stays rs after n d (
        All-along (λ q. HasMore (matchmake_round_time + n)) md.objects after.objects rs
          (All-sym after.objects md.objects rs
            (update_elsewhere md.objects r (tired_member (md.objects r)) rs apart))
          h)

tired_self :
    (rs : List Ref) (f : Store) → Distinct rs → All (λ r. tired rs f r ≡ tired_member (f r)) rs
unfolding tired
tired_self [] f d = tt
tired_self (r ∷ rs) f (apart, d) =
    let g = update f r (tired_member (f r)) in
    (
      tired_other rs g r apart ∙ update_self f r (tired_member (f r)),
      All-along (λ q m. tired rs g q ≡ tired_member m) g f rs
          (update_elsewhere f r (tired_member (f r)) rs apart) (tired_self rs g d),
    )

-- `k` rounds of the first loop, with no client heard in between
unfoldable pub rounds : ℕ → Action (Unit {0})
rounds zero = pure tt
rounds (suc k) = do
  all_clients ← gets (λ md. values md.address_to_record)
  expire all_clients
  rounds k

rounds_more :
    (k : ℕ) → matchmake_round_time * suc k ≡ matchmake_round_time + matchmake_round_time * k
rounds_more k = omega arith

module _ (k : ℕ) (f g : Store) where
  lasting :
      (rs : List Ref)
      → All (λ r. tired rs f r ≡ tired_member (f r)) rs
      → All (λ r. HasMore (matchmake_round_time * suc k) (f r)) rs
      → All (λ r. HasMore (matchmake_round_time * k) (tired rs f r)) rs
  lasting rs =
      All-zip (λ r. tired rs f r ≡ tired_member (f r))
        (λ r. HasMore (matchmake_round_time * suc k) (f r))
        (λ r. HasMore (matchmake_round_time * k) (tired rs f r))
        (λ r e h. rw e (tire-HasMore (f r) (matchmake_round_time * k) (rw (← rounds_more k) h))) rs

  quieter :
      (rs : List Ref)
      → All (λ r. tired rs f r ≡ tired_member (f r)) rs
      → All (λ r. HasMore (matchmake_round_time * suc k) (f r)) rs
      → All (λ r. g r ≡ silent k (tired rs f r)) rs
      → All (λ r. g r ≡ silent (suc k) (f r)) rs
  quieter rs once h self =
      All-zip (λ r. tired rs f r ≡ tired_member (f r))
        (λ r. (g r ≡ silent k (tired rs f r)) × HasMore (matchmake_round_time * suc k) (f r))
        (λ r. g r ≡ silent (suc k) (f r))
        (λ r e (same, left). same ∙ ap (silent k) e ∙ silent-tire (f r) k left) rs once
        (All-zip (λ r. g r ≡ silent k (tired rs f r))
          (λ r. HasMore (matchmake_round_time * suc k) (f r))
          (λ r. (g r ≡ silent k (tired rs f r)) × HasMore (matchmake_round_time * suc k) (f r))
          (λ r x y. (x, y)) rs self h)

-- If no reference is registered twice, and each registered object is a host that has more than 3k
-- seconds left, and none is heard, then k rounds of the first loop of `matchmake` return, drop nobody, and take 3k
-- seconds from each counter; nothing else changes.
pub rounds-silent :
    (k : ℕ) (rs : List Ref) (md : MatchingData)
    → values md.address_to_record ≡ rs
    → Distinct rs
    → All (λ r. HasMore (matchmake_round_time * k) (md.objects r)) rs
    → (objects : Store) × (rounds k md ≡ (ok tt, record md { objects = objects }))
      × All (λ r. objects r ≡ silent k (md.objects r)) rs
      × ((q : Ref) → All (λ r. q ≢ r) rs → objects q ≡ md.objects q)
unfolding rounds
rounds-silent zero rs md known d h = (
  md.objects,
  refl,
  All-zip (λ r. HasMore (matchmake_round_time * 0) (md.objects r)) (λ _. Unit {0})
      (λ r. md.objects r ≡ silent 0 (md.objects r))
      (λ r left _. sym (silent-zero (md.objects r) (matchmake_round_time * 0) left)) rs h
      (All-trivial rs),
  λ q _. refl,
)
rounds-silent (suc k) rs md known d h =
    let after = record md { objects = tired rs md.objects } in
    let once = tired_self rs md.objects d in
    let (objects, run, self, others) =
      rounds-silent k rs after known d (lasting k md.objects md.objects rs once h) in
    (
      objects,
      >>=-ok (expire (values md.address_to_record)) (λ _. rounds k)
            (ap (λ l. expire l md) known
              ∙ expire-stays rs md (matchmake_round_time * k) d (
                  All-zip (λ r. HasMore (matchmake_round_time * suc k) (md.objects r))
                    (λ _. Unit {0})
                    (λ r. HasMore (matchmake_round_time + matchmake_round_time * k) (md.objects r))
                    (λ r left _. rw (← rounds_more k) left) rs h (All-trivial rs)))
          ∙ run,
      quieter k md.objects objects rs once h self,
      λ q apart. others q apart ∙ tired_other rs md.objects q apart,
    )
