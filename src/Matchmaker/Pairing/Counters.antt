-- ===== src/Matchmaker/Pairing/Counters.antt =====
-- How the counters of the clients run down in the first loop of `matchmake` (match.py).
use meet_your_match.Prelude.{
  ℕ, suc, ◌+◌, ◌-◌, ◌*◌, ◌<◌, ◌≡◌, ◌≢◌, refl, sym, ◌∙◌, ap, false, Option, some, arith, ==_iff,
}
use meet_your_match.Prelude.Int.{ℤ, pos, ◌-ℤ◌, ◌<ℤ◌, leb_ℤ}
use meet_your_match.Python.{ok, ◌>>=◌, >>=-ok}
use meet_your_match.Member.{Attributes, Member}
use meet_your_match.Constants.{matchmake_round_time}
use mathlib.Core.Option
use meet_your_match.Matching.{Ref, Store, MatchingData, update, assigned, write}
use meet_your_match.Matchmaker.Pairing.{tire, drop_silent, expire_client}

pub update_self : (f : Store) (r : Ref) (m : Member) → update f r m r ≡ m
update_self f r m = rw ((==_iff r r).1 refl) refl

pub update_other : (f : Store) (r q : Ref) (m : Member) → r ≢ q → update f r m q ≡ f q
update_other f r q m h = ground arith

-- A host, for whom more than `n` seconds are left.
abbrev pub HasMore : ℕ → Member → Type 0
HasMore n m = (d : Attributes) × (m.dict ≡ some d) × (pos n <ℤ d.alive_ctr)

more : (z : ℤ) (n : ℕ) → pos n <ℤ z → (c : ℕ) × (z ≡ pos c) × (n < c)
more (pos c) n h = (c, refl, omega arith)
more (ℤ.negsuc c) n h = absurd (omega arith)

minus-pos : (c d b : ℕ) → b + d ≡ c → pos c -ℤ pos d ≡ pos b
minus-pos c d b h = ground arith

-- With `n` seconds less.
abbrev pub lowered : ℕ → Attributes → Attributes
lowered n d = record d { alive_ctr = d.alive_ctr -ℤ pos n }

-- What `k` silent rounds leave of a member.
abbrev pub silent : ℕ → Member → Member
silent k m = record m { dict = Option.map (lowered (matchmake_round_time * k)) m.dict }

-- What one round leaves of it, if it stays.
abbrev pub tired_member : Member → Member
tired_member m = record m { dict = Option.map tire m.dict }

pub silent-zero : (m : Member) (n : ℕ) → HasMore n m → silent 0 m ≡ m
silent-zero m n h =
    let (d, has, lt) = h in
    let (c, e, _) = more d.alive_ctr n lt in
    ap {A = Option Attributes} (λ o. record m { dict = o })
      (ap (Option.map (lowered (matchmake_round_time * 0))) has
        ∙ ap {A = ℤ} (λ z. some (record d { alive_ctr = z })) (same d.alive_ctr c e)
        ∙ sym has)
  where
    same : (z : ℤ) (c : ℕ) → z ≡ pos c → z -ℤ pos 0 ≡ z
    same z c e = rw e (minus-pos c 0 c (omega arith))

pub silent-tire :
    (m : Member) (k : ℕ)
    → HasMore (matchmake_round_time * suc k) m
    → silent k (tired_member m) ≡ silent (suc k) m
silent-tire m k h =
    let (d, has, left) = h in
    let (c, e, lt) = more d.alive_ctr (matchmake_round_time * suc k) left in
    ap {A = Option Attributes} (λ o. record m { dict = o })
      (ap (λ o. Option.map (lowered (matchmake_round_time * k)) (Option.map tire o)) has
        ∙ ap {A = ℤ} (λ z. some (record d { alive_ctr = z })) (counters d.alive_ctr c e lt)
        ∙ sym (ap (Option.map (lowered (matchmake_round_time * suc k))) has))
  where
    counters :
        (z : ℤ) (c : ℕ)
        → z ≡ pos c
        → 3 * suc k < c
        → (z -ℤ pos 3) -ℤ pos (3 * k) ≡ z -ℤ pos (3 * suc k)
    counters z c e lt = rw e (
        ap (λ y. y -ℤ pos (3 * k)) (minus-pos c 3 (c - 3) (omega arith))
        ∙ minus-pos (c - 3) (3 * k) (c - 3 * suc k) (omega arith)
        ∙ sym (minus-pos c (3 * suc k) (c - 3 * suc k) (omega arith)))

tire-left :
    (d : Attributes) (n : ℕ)
    → pos (matchmake_round_time + n) <ℤ d.alive_ctr
    → pos n <ℤ (tire d).alive_ctr
tire-left d n h =
    let (c, e, lt) = more d.alive_ctr (matchmake_round_time + n) h in counter d.alive_ctr c e lt
  where
    counter : (z : ℤ) (c : ℕ) → z ≡ pos c → 3 + n < c → pos n <ℤ z -ℤ pos 3
    counter z c e lt = rw (e, minus-pos c 3 (c - 3) (omega arith)) (omega arith)

pub tire-HasMore :
    (m : Member) (n : ℕ) → HasMore (matchmake_round_time + n) m → HasMore n (tired_member m)
tire-HasMore m n (d, has, left) = (tire d, ap (Option.map tire) has, tire-left d n left)

alive : (z : ℤ) → pos 0 <ℤ z → leb_ℤ z (pos 0) ≡ false
alive z h = ground arith

pub write_host :
    (f : Attributes → Attributes) (r : Ref) (md : MatchingData) {d : Attributes}
    → (md.objects r).dict ≡ some d
    → write f r md
      ≡ (ok tt, record md { objects = update md.objects r (assigned (md.objects r) (f d)) })
write_host f r md has = rw (has, ◌>>=◌) refl

drop_silent-stays :
    (r : Ref) (md : MatchingData) {d : Attributes}
    → (md.objects r).dict ≡ some d
    → leb_ℤ d.alive_ctr (pos 0) ≡ false
    → drop_silent r md ≡ (ok tt, md)
unfolding drop_silent
drop_silent-stays r md has lives = rw (has, lives, ◌>>=◌) refl

-- Whose counter does not run out stays.
pub expire_client-stays :
    (r : Ref) (md : MatchingData) (n : ℕ)
    → HasMore (matchmake_round_time + n) (md.objects r)
    → expire_client r md
      ≡ (ok tt, record md { objects = update md.objects r (tired_member (md.objects r)) })
unfolding expire_client
expire_client-stays r md n (d, has, left) =
    let m = assigned (md.objects r) (tire d) in
    let after = record md { objects = update md.objects r m } in
    let lives = alive (tire d).alive_ctr (omega (arith, tire-left d n left)) in
    >>=-ok (write tire r) (λ _. drop_silent r) {s = md} {t = after} (write_host tire r md has)
    ∙ drop_silent-stays r after (ap (λ (m : Member). m.dict) (update_self md.objects r m)) lives
    ∙ ap {A = Option Attributes}
        (λ o.
          (ok tt, record md { objects = update md.objects r (record (md.objects r) { dict = o }) }))
        (sym (ap (Option.map tire) has))
