-- ===== src/Handshake/ServerName.antt =====
-- The server's name in do_initialization of src/protocol/ovnc_handshake.c is read without a fault.
use libopenvnc.Base.{
  ℕ, zero, suc, ◌-◌, ◌≤◌, ◌≡◌, refl, false, List, arith, ltb, ◌==◌, if◌then◌else◌,
}
use libopenvnc.State.{Client, created, server_name_max}
use libopenvnc.Run.{System, modify_client}
use libopenvnc.Run.Safe.{Ends-mono, Safe, Safe-bind, Safe-if, Safe-pure, Safe-assume}
use libopenvnc.Session.{IsTame}
use libopenvnc.Session.Reads.{IsLinked-mono, recv_to-Ends}
use libopenvnc.Session.Primitives.{transport_recv-Safe}
use libopenvnc.Transport.{transport_recv_to}
use libopenvnc.Handshake.Init.{store_name, end_name, skip_loop, read_name}
use libopenvnc.Handshake.Opening.{IsOpening, Step, IsOpening-IsHeld, set_info-Safe}

-- A piece is at least a byte.
chunk-le :
    (fuel skip : ℕ)
    → (skip == 0) ≡ false
    → skip ≤ suc fuel
    → skip - (if ltb 256 skip then 256 else skip) ≤ fuel
chunk-le fuel skip more le = ground arith

module _ {E : Type 0} ⦃sys : System E⦄ {input output : E → List ℕ} (laws : IsTame input output)
    (k : ℕ) (F : Client → Type 0) where
  -- The rest of a long name is dropped in pieces of 256 bytes; its length is enough fuel.
  skip_loop-Step : (fuel skip : ℕ) → skip ≤ fuel → Step laws k F (skip_loop fuel skip)
  unfolding skip_loop
  skip_loop-Step zero skip le =
      let none_left : skip ≡ 0 = omega arith in rw none_left (Safe-pure tt (λ s q. q))
  skip_loop-Step (suc fuel) skip le =
      Safe-if (skip == 0) (λ _. Safe-pure tt (λ s q. q))
        (λ more.
          Safe-bind (transport_recv-Safe laws (IsOpening-IsHeld laws k F) _)
            λ bs. Safe-assume λ _. skip_loop-Step fuel _ (chunk-le fuel skip more le))

module _ {E : Type 0} ⦃sys : System E⦄ {input output : E → List ℕ} (laws : IsTame input output)
    (k : ℕ) (F : Client → Type 0) (stored : (bs : List ℕ) (c : Client) → F c → F (store_name bs c))
    (ended : (last flag : ℕ) (c : Client) → F c → F (end_name last flag c)) where
  recv_name-Safe :
      (n : ℕ)
      → Safe
          (IsOpening input F k)
          (λ _ s. IsOpening input F k s)
          (IsOpening input F k)
          (transport_recv_to store_name n)
  recv_name-Safe n = record {
    at = λ s h.
        Ends-mono (transport_recv_to store_name n s)
          (λ bs s' q. (IsLinked-mono input created (k - n) k s' (omega arith) q.0, q.1)) (λ s' x. x)
          (recv_to-Ends input output laws F store_name created k n s
            (record { transport = λ bs c. refl; state = λ bs c. refl }) (λ bs c le g. stored bs c g)
            h.0 h.1);
  }

  end_name-Step : (last flag : ℕ) → Step laws k F (modify_client (end_name last flag))
  end_name-Step last flag = set_info-Safe laws k F _ (ended last flag)

  -- The name, of any length, and the rest of it.
  pub read_name-Safe :
      (name_len : ℕ)
      → Safe
          (IsOpening input F k)
          (λ _ s. IsOpening input F k s)
          (IsOpening input F k)
          (read_name name_len)
  unfolding read_name
  read_name-Safe name_len =
      Safe-if (ltb 0 name_len)
        (λ _.
          Safe-if (ltb (server_name_max - 1) name_len)
            (λ _. Safe-bind (recv_name-Safe _) λ _.
              Safe-bind (end_name-Step (server_name_max - 1) 1) λ _.
                skip_loop-Step laws k F (name_len - (server_name_max - 1))
                  (name_len - (server_name_max - 1)) (omega arith))
            (λ _. Safe-bind (recv_name-Safe _) λ _. end_name-Step name_len 0))
        (λ _. end_name-Step 0 0)
