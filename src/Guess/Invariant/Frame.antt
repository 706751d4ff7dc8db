-- ===== src/Guess/Invariant/Frame.antt =====
-- A step of one pair of threads leaves the invariant of every other pair alone.
use cs.Prelude.{
  ℕ, ◌+◌, ◌≤◌, ◌<◌, ◌≡◌, ◌≢◌, refl, sym, ◌∙◌, Bool, true, false, Option, none, some, ◌==◌, ltb,
  arith, Bool-cases, inl, inr, if◌then◌else◌,
}
use mathlib.Core.Path.{subst}
use cs.Guess.Range.{low, high, disjoint}
use cs.Guess.Memory.{Shared}
use cs.Guess.Server.{Server, checking, comparing, server_step}
use cs.Guess.Client.{Client, filling, sweeping, client_step}
use cs.Guess.Invariant.Defs.{Judged, Wrong, ServerFact, ClientFact, PairInv}

sweeping-le :
    (lo hi k : ℕ) (flag : Bool) (shm2 : ℕ → ℕ) → ClientFact lo hi shm2 (sweeping k flag) → lo ≤ k
sweeping-le lo hi k true shm2 f = f.0
sweeping-le lo hi k false shm2 f = f.0

module _ (n m : ℕ) (secret : ℕ → ℕ) where
  -- Two memories that look the same to the pair `id`.
  pub record SameFor (id : ℕ) (mem mem' : Shared) : Type 0 where
    pub shm1 : (j : ℕ) → low n m id ≤ j → j < high n m id → mem'.shm1 j ≡ mem.shm1 j
    pub shm2 : (j : ℕ) → low n m id ≤ j → j < high n m id → mem'.shm2 j ≡ mem.shm2 j
    pub ask : mem'.sem id ≡ mem.sem id
    pub answer : mem'.sem (id + m) ≡ mem.sem (id + m)

  module _ (id : ℕ) (mem mem' : Shared) (same : SameFor id mem mem') where
    Wrong-same :
        Wrong (low n m id) (high n m id) mem.shm2 → Wrong (low n m id) (high n m id) mem'.shm2
    Wrong-same (j, a, b, e) = (j, a, b, same.shm2 j a b ∙ e)

    Judged-same :
        (i : ℕ) → i ≤ high n m id → Judged (low n m id) i mem.shm2 → Judged (low n m id) i mem'.shm2
    Judged-same i h f j a b q = f j a b (sym (same.shm2 j a (omega arith)) ∙ q)

    ServerFact-same :
        (s : Server)
        → ServerFact (low n m id) (high n m id) mem.shm2 s
        → ServerFact (low n m id) (high n m id) mem'.shm2 s
    ServerFact-same Server.start f = tt
    ServerFact-same (checking i) f = (f.0, f.1, Judged-same i f.1 f.2)
    ServerFact-same Server.waiting f = Wrong-same f
    ServerFact-same (comparing i) f = f
    ServerFact-same Server.posting f = tt
    ServerFact-same Server.exited f = Judged-same (high n m id) (omega arith) f

    ClientFact-same :
        (c : Client)
        → ClientFact (low n m id) (high n m id) mem.shm2 c
        → ClientFact (low n m id) (high n m id) mem'.shm2 c
    ClientFact-same Client.start f = λ j a b. same.shm2 j a b ∙ f j a b
    ClientFact-same (filling i) f = (f.0, λ j a b. same.shm2 j a b ∙ f.1 j a b)
    ClientFact-same Client.posting f = Wrong-same f
    ClientFact-same Client.waiting f = tt
    ClientFact-same (sweeping k true) f = (f.0, Wrong-same f.1)
    ClientFact-same (sweeping k false) f = (f.0, f.1, Judged-same k f.1 f.2)
    ClientFact-same Client.exited f = Judged-same (high n m id) (omega arith) f

    pub PairInv-same :
        (s : Server) (c : Client) → PairInv n m secret id mem s c → PairInv n m secret id mem' s c
    PairInv-same s c inv = record {
      turn = omega (arith, inv.turn, same.ask, same.answer);
      server_fact = ServerFact-same s inv.server_fact;
      client_fact = ClientFact-same c inv.client_fact;
      asked = λ e. Wrong-same (inv.asked (sym same.ask ∙ e));
      sound = λ j a b q. ground (arith, inv.sound j, same.shm1 j, same.shm2 j);
    }

  -- A step of thread `id` writes only in its own part and to its own semaphores.
  module _ (id other : ℕ) (apart : id ≢ other) (lt : id < m) (lt' : other < m) (mem : Shared) where
    abbrev Same : {P : Type 0} → Option (Shared × P) → Type 0
    Same none = Unit
    Same (some (mem', p)) = SameFor other mem mem'

    unchanged : SameFor other mem mem
    unchanged = record { shm1 = λ j a b. refl; shm2 = λ j a b. refl; ask = refl; answer = refl }

    server-Same :
        (s : Server)
        → ServerFact (low n m id) (high n m id) mem.shm2 s
        → Same (server_step n m secret id s mem)
    unfolding server_step
    server-Same Server.start f = elim (Bool-cases (mem.server_no == id)) [
      | inl t ↦
          rw t (record { shm1 = λ j a b. refl; shm2 = λ j a b. refl; ask = refl; answer = refl })
      | inr e ↦ rw e tt
    ]
    server-Same (checking i) f = elim (Bool-cases (ltb i (high n m id))) [
      | inl t ↦ elim (Bool-cases (mem.shm2 i == 0)) [
        | inl z ↦ rw (t, z) unchanged
        | inr z ↦ rw (t, z) unchanged
      ]
      | inr e ↦ rw e unchanged
    ]
    server-Same Server.waiting f = elim (Bool-cases (mem.sem id == 0)) [
      | inl t ↦ rw t tt
      | inr e ↦ rw e (record {
        shm1 = λ j a b. refl;
        shm2 = λ j a b. refl;
        ask = ground arith;
        answer = ground arith;
      })
    ]
    server-Same (comparing i) f = elim (Bool-cases (ltb i (high n m id))) [
      | inl t ↦ rw t (record {
        shm1 = λ j a b. refl;
        shm2 = λ j a b. ground (arith, disjoint n m id other i);
        ask = refl;
        answer = refl;
      })
      | inr e ↦ rw e unchanged
    ]
    server-Same Server.posting f = record {
      shm1 = λ j a b. refl;
      shm2 = λ j a b. refl;
      ask = ground arith;
      answer = ground arith;
    }
    server-Same Server.exited f = tt

    client-Same :
        (c : Client)
        → ClientFact (low n m id) (high n m id) mem.shm2 c
        → Same (client_step n m id c mem)
    unfolding client_step
    client-Same Client.start f = elim (Bool-cases (mem.client_no == id)) [
      | inl t ↦
          rw t (record { shm1 = λ j a b. refl; shm2 = λ j a b. refl; ask = refl; answer = refl })
      | inr e ↦ rw e tt
    ]
    client-Same (filling i) f = elim (Bool-cases (ltb i (high n m id))) [
      | inl t ↦ rw t (record {
        shm1 = λ j a b. ground (arith, disjoint n m id other i);
        shm2 = λ j a b. refl;
        ask = refl;
        answer = refl;
      })
      | inr e ↦ rw e unchanged
    ]
    client-Same Client.posting f = record {
      shm1 = λ j a b. refl;
      shm2 = λ j a b. refl;
      ask = ground arith;
      answer = ground arith;
    }
    client-Same Client.waiting f = elim (Bool-cases (mem.sem (id + m) == 0)) [
      | inl t ↦ rw t tt
      | inr e ↦ rw e (record {
        shm1 = λ j a b. refl;
        shm2 = λ j a b. refl;
        ask = ground arith;
        answer = ground arith;
      })
    ]
    client-Same (sweeping k flag) f = elim (Bool-cases (ltb k (high n m id))) [
      | inl t ↦ elim (Bool-cases (mem.shm2 k == 0)) [
        | inl z ↦
            let at : low n m id ≤ k = sweeping-le _ _ k flag mem.shm2 f in
            rw (t, z)
              (record {
                shm1 = λ j a b. ground (arith, disjoint n m id other k);
                shm2 = λ j a b. refl;
                ask = refl;
                answer = refl;
              })
        | inr z ↦ rw (t, z) unchanged
      ]
      | inr e ↦ rw e (turned flag)
    ]
      where
        turned :
            (flag : Bool)
            → Same (if flag then some (mem, Client.posting) else some (mem, Client.exited))
        turned true = unchanged
        turned false = unchanged
    client-Same Client.exited f = tt

    -- A step of server thread `id`, or of client thread `id`, leaves the memory of the pair
    -- `other` as it was, so that this pair still has its invariant.
    pub server_step-SameFor :
        (s : Server) {mem' : Shared} {t : Server}
        → ServerFact (low n m id) (high n m id) mem.shm2 s
        → server_step n m secret id s mem ≡ some (mem', t)
        → SameFor other mem mem'
    server_step-SameFor s f e = subst Same e (server-Same s f)

    pub client_step-SameFor :
        (c : Client) {mem' : Shared} {t : Client}
        → ClientFact (low n m id) (high n m id) mem.shm2 c
        → client_step n m id c mem ≡ some (mem', t)
        → SameFor other mem mem'
    client_step-SameFor c f e = subst Same e (client-Same c f)

    pub server_step-other :
        (s s' : Server) (c' : Client) {mem' : Shared} {t : Server}
        → ServerFact (low n m id) (high n m id) mem.shm2 s
        → server_step n m secret id s mem ≡ some (mem', t)
        → PairInv n m secret other mem s' c'
        → PairInv n m secret other mem' s' c'
    server_step-other s s' c' {mem'} f e inv =
        PairInv-same other mem mem' (server_step-SameFor s f e) s' c' inv

    pub client_step-other :
        (c c' : Client) (s' : Server) {mem' : Shared} {t : Client}
        → ClientFact (low n m id) (high n m id) mem.shm2 c
        → client_step n m id c mem ≡ some (mem', t)
        → PairInv n m secret other mem s' c'
        → PairInv n m secret other mem' s' c'
    client_step-other c c' s' {mem'} f e inv =
        PairInv-same other mem mem' (client_step-SameFor c f e) s' c' inv
