-- ===== src/MySqlConnectionPool/Tracked.antt =====
-- Each slot is available or held by one caller, through every interleaving of the callers' steps.
pub mod Init
pub mod Start
use cpp_chat.Base.{
  ℕ, zero, suc, ◌+◌, ◌≤◌, ◌≡◌, refl, sym, ap, subst, ◌∙◌, true, false, not, ◌&&◌, ◌||◌, Bool,
  Bool-cases, Option-cases, inl, inr, List, [], ◌∷◌, ◌++◌, Option, none, some, arith, ◌==◌, is_some,
  is_empty, if◌then◌else◌, ltb, nat_eq, append_assoc,
}
use cpp_chat.Base.Maps.{lookup, insert, lookup-insert}
use cpp_chat.MySqlConnectionPool.{
  MySqlConnectionPool, PooledConnection, Examination, ensure_healthy, release, release_found,
  is_candidate, split_idle, idle_health_check_unlocked, check_candidates, take_from, take_front,
  hand_out, acquire, close_connection, seconds,
}
use cpp_chat.MySqlConnectionPool.Slots.{
  count, count-append, present, IsTracked, IsSameSlots, same-IsTracked, ensure_healthy-same,
  replaced, same_present,
}

-- The slots are tracked, and a pool that is stopped has none.
pub record IsSafe (p : MySqlConnectionPool) (held : List ℕ) : Type 0 where
  pub tracked : IsTracked p held
  pub stopped_empty : p.stopped ≡ true → (a : ℕ) → is_some (lookup a p.connections) ≡ false

pub same-IsSafe :
    (p p' : MySqlConnectionPool) (held : List ℕ) → IsSameSlots p p' → IsSafe p held → IsSafe p' held
same-IsSafe p p' held same v = record {
  tracked = same-IsTracked p p' held same v.tracked;
  stopped_empty = λ h a. same.present a ∙ v.stopped_empty (sym same.stopped ∙ h) a;
}

pub ensure_healthy-IsSafe :
    (p : MySqlConnectionPool) (held : List ℕ) (address : ℕ) (e : Examination)
    → IsSafe p held
    → IsSafe (ensure_healthy p address e).0 held
ensure_healthy-IsSafe p held address e =
    same-IsSafe p (ensure_healthy p address e).0 held (ensure_healthy-same address e p)

-- What is held is a slot of the pool, which is not stopped.
pub held-present :
    (p : MySqlConnectionPool) (held : List ℕ) (a : ℕ)
    → IsSafe p (a ∷ held)
    → is_some (lookup a p.connections) ≡ true
unfolding IsTracked count
held-present p held a v =
    let e = v.tracked a in
    elim (Option-cases (lookup a p.connections)) [
      | inl h ↦ absurd (ground (arith, e, h))
      | inr (c, h) ↦ ap (λ o. is_some o) h
    ]

module _ (p : MySqlConnectionPool) (held : List ℕ) (address now : ℕ) (c : PooledConnection)
    (v : IsSafe p (address ∷ held)) (there : is_some (lookup address p.connections) ≡ true) where
  released :
      (stopped : Bool)
      → p.stopped ≡ stopped
      → IsSafe
          (if stopped then close_connection p address c else record p {
            connections = insert address (record c { last_used = now }) p.connections;
            available = p.available ++ address ∷ [];
          })
          held
  unfolding IsTracked count
  released true e = absurd (let h = v.stopped_empty e address in cc)
  released false e = record {
    tracked = λ a.
        let c' = record c { last_used = now } in
        let same =
          same_present (lookup a p.connections) (lookup a (insert address c' p.connections))
            (replaced p.connections address c' there a) in
        ground (arith, count-append a p.available (address ∷ []), v.tracked a, same);
    stopped_empty = λ h. absurd (cc);
  }

pub release-IsSafe :
    (p : MySqlConnectionPool) (held : List ℕ) (address now : ℕ)
    → IsSafe p (address ∷ held)
    → IsSafe (release p address now) held
unfolding release release_found
release-IsSafe p held address now v =
    let there = held-present p held address v in
    elim (Option-cases (lookup address p.connections)) [
      | inl h ↦ absurd (cc)
      | inr (c, h) ↦ rw h (released p held address now c v there p.stopped refl)
    ]

count-split_idle :
    (p : MySqlConnectionPool) (now a : ℕ) (available : List ℕ)
    → count a (split_idle p now available).0 + count a (split_idle p now available).1
      ≡ count a available
unfolding split_idle count
count-split_idle p now a [] = refl
count-split_idle p now a (x ∷ available) = ground (arith, count-split_idle p now a available)

idle-cases :
    (p : MySqlConnectionPool) (held : List ℕ) (now : ℕ) (skipped : Bool)
    → IsSafe p held
    → (r : MySqlConnectionPool × List ℕ)
    → r ≡ (
        if skipped then (p, []) else (
          record p { last_idle_check = now; available = (split_idle p now p.available).1 },
          (split_idle p now p.available).0,
        ))
    → IsSafe r.0 (r.1 ++ held)
unfolding IsTracked
idle-cases p held now true v r e = subst (λ x. IsSafe x.0 (x.1 ++ held)) (sym e) v
idle-cases p held now false v r e =
    subst (λ x. IsSafe x.0 (x.1 ++ held)) (sym e)
      (record {
        tracked = λ a.
            let split = count-split_idle p now a p.available in
            let counted = count-append a (split_idle p now p.available).0 held in
            let before = v.tracked a in omega arith;
        stopped_empty = v.stopped_empty;
      })

pub idle-IsSafe :
    (p : MySqlConnectionPool) (held : List ℕ) (now : ℕ)
    → IsSafe p held
    → IsSafe (idle_health_check_unlocked p now).0 ((idle_health_check_unlocked p now).1 ++ held)
unfolding idle_health_check_unlocked
idle-IsSafe p held now v = idle-cases p held now _ v _ refl

pub check_candidates-IsSafe :
    (p : MySqlConnectionPool) (e : ℕ → Examination) (n : ℕ) (candidates held : List ℕ)
    → IsSafe p (candidates ++ held)
    → IsSafe (check_candidates p e n candidates) held
unfolding check_candidates
check_candidates-IsSafe p e n [] held v = v
check_candidates-IsSafe p e n (address ∷ candidates) held v =
    let p' = (ensure_healthy p address (e n)).0 in
    check_candidates-IsSafe (release p' address (e n).now) e (suc n) candidates held (
      release-IsSafe p' (candidates ++ held) address (e n).now
        (ensure_healthy-IsSafe p (address ∷ (candidates ++ held)) address (e n) v))

-- What is handed out, as a list.
abbrev pub guard_of : Option ℕ → List ℕ
guard_of none = []
guard_of (some address) = address ∷ []

taken-cases :
    (p : MySqlConnectionPool) (held : List ℕ) (x : ℕ) (available : List ℕ)
    → p.available ≡ x ∷ available
    → IsSafe p held
    → (stopped : Bool)
    → IsSafe
        (if◌then◌else◌ {A = MySqlConnectionPool × Option ℕ} stopped
          (p, none)
          (record p { available = available }, some x)).0
        (guard_of
            (if◌then◌else◌ {A = MySqlConnectionPool × Option ℕ} stopped
              (p, none)
              (record p { available = available }, some x)).1
          ++ held)
unfolding IsTracked count
taken-cases p held x available e v true = v
taken-cases p held x available e v false = record {
  tracked = λ a.
      let before = v.tracked a in
      let counted = ap (λ l. count a l) e in ground (arith, before, counted);
  stopped_empty = v.stopped_empty;
}

take_from-IsSafe :
    (p : MySqlConnectionPool) (held available : List ℕ)
    → p.available ≡ available
    → IsSafe p held
    → IsSafe (take_from p available).0 (guard_of (take_from p available).1 ++ held)
unfolding take_from
take_from-IsSafe p held [] e v = v
take_from-IsSafe p held (x ∷ available) e v = taken-cases p held x available e v p.stopped

pub take_front-IsSafe :
    (p : MySqlConnectionPool) (held : List ℕ)
    → IsSafe p held
    → IsSafe (take_front p).0 (guard_of (take_front p).1 ++ held)
unfolding take_front
take_front-IsSafe p held = take_from-IsSafe p held p.available refl

handed-cases :
    (p : MySqlConnectionPool) (held : List ℕ) (address now : ℕ)
    → IsSafe p (address ∷ held)
    → (healthy : Bool)
    → IsSafe
        (if◌then◌else◌ {A = MySqlConnectionPool × Option ℕ} healthy
          (p, some address)
          (release p address now, none)).0
        (guard_of
            (if◌then◌else◌ {A = MySqlConnectionPool × Option ℕ} healthy
              (p, some address)
              (release p address now, none)).1
          ++ held)
handed-cases p held address now v true = v
handed-cases p held address now v false = release-IsSafe p held address now v

hand_out-IsSafe :
    (p : MySqlConnectionPool) (taken : Option ℕ) (held : List ℕ) (e : Examination)
    → IsSafe p (guard_of taken ++ held)
    → IsSafe (hand_out (p, taken) e).0 (guard_of (hand_out (p, taken) e).1 ++ held)
unfolding hand_out
hand_out-IsSafe p none held e v = v
hand_out-IsSafe p (some address) held e v =
    let r = ensure_healthy p address e in
    handed-cases r.0 held address e.now (ensure_healthy-IsSafe p (address ∷ held) address e v) r.1

-- `acquire` of a caller that runs alone hands out a slot that nobody holds, or none, and loses none.
pub acquire-IsSafe :
    (p : MySqlConnectionPool) (held : List ℕ) (now : ℕ) (e : ℕ → Examination) (last : Examination)
    → IsSafe p held
    → IsSafe (acquire p now e last).0 (guard_of (acquire p now e last).1 ++ held)
unfolding acquire
acquire-IsSafe p held now e last v =
    let r = idle_health_check_unlocked p now in
    let p' = check_candidates r.0 e 0 r.1 in
    let w = check_candidates-IsSafe r.0 e 0 r.1 held (idle-IsSafe p held now v) in
    hand_out-IsSafe (take_front p').0 (take_front p').1 held last (take_front-IsSafe p' held w)
