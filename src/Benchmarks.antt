-- ===== src/Benchmarks.antt =====
-- The two variants of the connection log that tests/basictests.py compares: `ConnectionLogList` keeps
-- its entries in a list with a fixed number of places, `ConnectionLogDict` in a dict. The clock's
-- readings are arguments.
pub mod Agreement
use meet_your_match.Prelude.{
  ℕ, zero, suc, ◌+◌, ◌-◌, Bool, true, false, not, ◌&&◌, Option, none, some, List, [], ◌∷◌, ltb, leb,
  ◌==◌, length, set, get_elem?, replicate, remove_at, ◌||◌, if◌then◌else◌,
}
use meet_your_match.Python.{
  Result, ok, raised, blocked, Py, pure, raise, ◌>>=◌, ◌>>◌, modify, index_error, name_error,
  runtime_error, Floats,
}

-- A place of the list: an address with the time of its last poll, or nothing.
abbrev pub Places : Type 0 → Type 0 → Type 0
Places A F = List (Option (A × F))

pub record ListLog (A F : Type 0) : Type 0 where
  pub max_ip : ℕ
  pub turnover_time : F
  pub ip_log : Places A F
  pub avail_key : ℕ
  pub top_key : ℕ
  pub max_poll_rate : F
  pub turnover_begin : ℕ
  pub turnover_size : ℕ

pub record DictLog (A F : Type 0) : Type 0 where
  pub max_ip : ℕ
  pub turnover_time : F
  pub ip_log : List (A × F)
  pub max_poll_rate : F

module _ (fl : Floats) {A : Type 0} (same : A → A → Bool) where
  open fl use {Float, minus, less}

  -- `ConnectionLogList(…)`
  abbrev pub new_list_log : Float → ℕ → Float → ListLog A Float
  new_list_log max_poll_rate max_ip turnover_time = record {
    max_ip = max_ip;
    turnover_time = turnover_time;
    ip_log = replicate max_ip none;
    avail_key = 0;
    top_key = 1;
    max_poll_rate = max_poll_rate;
    turnover_begin = 0;
    turnover_size = if ltb max_ip 100 then max_ip else 100;
  }

  -- `ConnectionLogDict(…)`
  abbrev pub new_dict_log : Float → ℕ → Float → DictLog A Float
  new_dict_log max_poll_rate max_ip turnover_time = record {
    max_ip = max_ip;
    turnover_time = turnover_time;
    ip_log = [];
    max_poll_rate = max_poll_rate;
  }

  abbrev pub is_fast : Float → Float → Float → Bool
  is_fast rate cur_time prev_time = less (minus cur_time prev_time) rate

  -- `1` for a poll that is refused
  abbrev pub refuse : Bool → ℕ
  refuse b = if b then 1 else 0

  -- A hit further on in the list.
  abbrev pub further : Result (Option (ℕ × Float)) → Result (Option (ℕ × Float))
  further (ok (some (i, t))) = ok (some (suc i, t))
  further r = r

  -- The loop over the first `top_key` places: the first that has the address, with its time.
  unfoldable pub scan : ℕ → A → Places A Float → Result (Option (ℕ × Float))
  scan zero ip places = ok none
  scan (suc n) ip [] = raised index_error
  scan (suc n) ip (none ∷ places) = further (scan n ip places)
  scan (suc n) ip (some (a, t) ∷ places) =
      let rest = further (scan n ip places) in if same ip a then ok (some (0, t)) else rest

  -- `while self.avail_key < self.MAX_IP`, with so many places left
  unfoldable pub seek : ℕ → Py (ListLog A Float) ℕ
  seek zero log = (ok 1, log)
  seek (suc n) log =
      let rest = seek n (record log { avail_key = log.avail_key + 1 }) in
      if log.avail_key == log.top_key
      then (ok 0, record log { top_key = log.top_key + 1 })
      else elim (get_elem? log.ip_log log.avail_key) [
        | none ↦ (raised index_error, log)
        | some none ↦ (ok 0, log)
        | some (some entry) ↦ rest
      ]

  -- An address without a place gets the one at `avail_key`.
  unfoldable pub add : Float → A → Py (ListLog A Float) ℕ
  unfolding seek
  add cur_time ip log =
      if leb log.max_ip log.avail_key
      then (ok 1, log)
      else if leb (length log.ip_log) log.avail_key
      then (raised index_error, log)
      else let added = record log {
        ip_log = set log.ip_log log.avail_key (some (ip, cur_time));
        avail_key = log.avail_key + 1;
      } in
        if added.avail_key == added.top_key
        then (ok 0, record added { top_key = added.top_key + 1 })
        else seek (added.max_ip - added.avail_key) added

  -- `ConnectionLogList.log_ip`, at the time `cur_time`
  unfoldable pub list_log_ip : Float → A → Py (ListLog A Float) ℕ
  unfolding scan add
  list_log_ip cur_time ip log = elim (scan log.top_key ip log.ip_log) [
    | ok (some (key, prev_time)) ↦ (
      ok (refuse (is_fast log.max_poll_rate cur_time prev_time)),
      record log { ip_log = set log.ip_log key (some (ip, cur_time)) },
    )
    | ok none ↦ add cur_time ip log
    | raised e ↦ (raised e, log)
    | blocked ↦ (blocked, log)
  ]

  -- `d[ip]`, if it is there
  unfoldable pub time_of : A → List (A × Float) → Option Float
  time_of ip [] = none
  time_of ip ((a, t) ∷ d) = if same ip a then some t else time_of ip d

  -- `d[ip] = time`: a known key keeps its place
  unfoldable pub put_time : A → Float → List (A × Float) → List (A × Float)
  put_time ip time [] = (ip, time) ∷ []
  put_time ip time ((a, t) ∷ d) = if same ip a then (a, time) ∷ d else (a, t) ∷ put_time ip time d

  -- `ConnectionLogDict.log_ip`
  unfoldable pub dict_log_ip : Float → A → Py (DictLog A Float) ℕ
  unfolding time_of put_time
  dict_log_ip cur_time ip log =
      let noted = record log { ip_log = put_time ip cur_time log.ip_log } in
      elim (time_of ip log.ip_log) [
        | none ↦ (ok 0, noted)
        | some prev_time ↦
            if is_fast log.max_poll_rate cur_time prev_time then (ok 1, log) else (ok 0, noted)
      ]

  -- `self.ip_log[key]` is there, and None
  abbrev is_empty_at : ℕ → Places A Float → Bool
  is_empty_at key places = elim (get_elem? places key) [ some none ↦ true | _ ↦ false ]

  -- What `turnover` does with an entry that is too old: whether the loop ends here, or goes on.
  -- Where the loop would look for the new top it assigns `key`, which has no value.
  unfoldable pub free_place : ℕ → Py (ListLog A Float) Bool
  free_place key log =
      let freed = record log {
        ip_log = set log.ip_log key none;
        avail_key = if ltb key log.avail_key then key else log.avail_key;
      } in
      if ltb (key + 1) log.top_key
      then (ok false, freed)
      else if ltb 0 (key - 1) && is_empty_at (key - 1) freed.ip_log
      then (raised name_error, freed)
      else (ok true, record freed { top_key = key })

  -- The loop of `turnover`, for `count` places from `key` on, with the clock at `clock key` for each:
  -- whether it starts from the front the next time.
  unfoldable pub sweep : (ℕ → Float) → ℕ → ℕ → Py (ListLog A Float) Bool
  unfolding free_place
  sweep clock zero key log = (ok false, log)
  sweep clock (suc count) key log =
      let go_on = sweep clock count (suc key) in
      elim (get_elem? log.ip_log key) [
        | none ↦ (raised index_error, log)
        | some none ↦ go_on log
        | some (some (a, time)) ↦
            if less log.turnover_time (minus (clock key) time)
            then (free_place key >>= λ ends. if ends then pure true else go_on) log
            else go_on log
      ]

  -- `ConnectionLogList.turnover`
  unfoldable pub list_turnover : (ℕ → Float) → Py (ListLog A Float) (Unit {0})
  unfolding sweep
  list_turnover clock log =
      let size_end = log.turnover_begin + log.turnover_size in
      let past = ltb log.max_ip size_end in
      let turnover_end = if past then log.max_ip else size_end in
      (sweep clock (turnover_end - log.turnover_begin) log.turnover_begin >>= λ ends.
      modify (λ l. record l { turnover_begin = if past || ends then 0 else turnover_end }))
        log

  -- the first entry that is too old
  unfoldable pub first_stale : (ℕ → Float) → ℕ → Float → List (A × Float) → Option ℕ
  first_stale clock i turnover_time [] = none
  first_stale clock i turnover_time ((a, time) ∷ d) =
      let later = first_stale clock (suc i) turnover_time d in
      if less turnover_time (minus (clock i) time) then some i else later

  -- `ConnectionLogDict.turnover`: a dict that changes its size while it is gone through raises a
  -- RuntimeError at the next entry, or at the end.
  unfoldable pub dict_turnover : (ℕ → Float) → Py (DictLog A Float) (Unit {0})
  unfolding first_stale
  dict_turnover clock log = elim (first_stale clock 0 log.turnover_time log.ip_log) [
    | none ↦ (ok tt, log)
    | some i ↦ (raised runtime_error, record log { ip_log = remove_at log.ip_log i })
  ]
