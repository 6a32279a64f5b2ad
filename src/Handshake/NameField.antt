-- ===== src/Handshake/NameField.antt =====
-- The array `name` of the connection information, which do_initialization of
-- src/protocol/ovnc_handshake.c fills: a C string that ends inside of the array.
use mathlib.Core.Path.{subst}
use libopenvnc.Base.{
  ℕ, zero, suc, ◌+◌, ◌-◌, ◌≤◌, ◌<◌, ◌≡◌, refl, ap, ◌∙◌, sym, List, [], ◌∷◌, ◌++◌, append_assoc,
  arith, ltb, ltb→lt, ltb→le, ◌==◌, ==_iff, if◌then◌else◌, min, length, length-append,
  length-splice, get_or, splice, get_or-append-left, get_or-splice-inside, get_or-splice-outside,
  inl,
}
use libopenvnc.State.{Client, ConnectionInfo, created, server_name_max}
use libopenvnc.Run.{St, System, modify_client}
use libopenvnc.Run.Safe.{
  Ends, Ends-mono, EndsOr-mono, Safe-bind, Safe-if, Safe-pure, Safe-modify, Safe-post, Safe-pre,
}
use libopenvnc.Socket.Stream.{IsStream}
use libopenvnc.Session.{IsLinked, IsTame}
use libopenvnc.Session.Gives.{Gives, Yields-and, recv_to-Yields, recv-Yields}
use libopenvnc.Transport.{transport_recv_to, transport_recv}
use libopenvnc.Handshake.Init.{store_name, end_name, skip_loop, read_name}
use libopenvnc.Handshake.ServerName.{read_name-Safe}

-- The array for a name of `n` bytes, of which `coming` begins with the bytes.
pub record IsNamed (n : ℕ) (coming : List ℕ) (info : ConnectionInfo) : Type 0 where
  pub size : length info.name ≡ server_name_max
  pub shown : (i : ℕ) → i < min n (server_name_max - 1) → get_or info.name i 0 ≡ get_or coming i 0
  pub terminated : get_or info.name (min n (server_name_max - 1)) 1 ≡ 0
  pub truncated : info.name_truncated ≡ (if ltb (server_name_max - 1) n then 1 else 0)

-- The first `m` bytes are there, in an array of 256 bytes.
pub record HasFront (m : ℕ) (coming : List ℕ) (name : List ℕ) : Type 0 where
  pub size : length name ≡ server_name_max
  pub shown : (i : ℕ) → i < m → get_or name i 0 ≡ get_or coming i 0

same-HasFront :
    (m k : ℕ) (c d x y : List ℕ) → m ≡ k → c ≡ d → x ≡ y → HasFront m c x → HasFront k d y
same-HasFront m k c d x y e f g h =
    subst (λ (t : ℕ). HasFront t d y) e
      (subst (λ l. HasFront m l y) f (subst (λ l. HasFront m c l) g h))

stored-HasFront :
    (name bs left : List ℕ)
    → length name ≡ server_name_max
    → length bs ≤ server_name_max
    → HasFront (length bs) (bs ++ left) (splice name 0 bs)
stored-HasFront name bs left size fits = record {
  size = length-splice name 0 bs (omega (arith, size)) ∙ size;
  shown = λ i h.
      let e : 0 + i ≡ i = omega arith in
      ap (λ (k : ℕ). get_or (splice name 0 bs) k 0) (sym e)
      ∙ get_or-splice-inside 0 name 0 bs (omega (arith, size)) i h
      ∙ sym (get_or-append-left 0 bs left i h);
}

module _ (m n flag : ℕ) (coming : List ℕ) (info : ConnectionInfo)
    (front : HasFront m coming info.name) (last : m ≡ min n (server_name_max - 1))
    (cut : flag ≡ (if ltb (server_name_max - 1) n then 1 else 0)) where
  ended-IsNamed :
      IsNamed n coming (record info { name = splice info.name m (0 ∷ []); name_truncated = flag })
  ended-IsNamed =
      let room : m + 1 ≤ length info.name = omega (arith, front.size, last) in
      record {
        size = length-splice info.name m (0 ∷ []) room ∙ front.size;
        shown = λ i h.
            get_or-splice-outside 0 info.name m (0 ∷ []) room i (inl (omega (arith, last, h)))
            ∙ front.shown i (omega (arith, last, h));
        terminated =
            let e : min n (server_name_max - 1) ≡ m + 0 = omega (arith, last) in
            rw e (get_or-splice-inside 1 info.name m (0 ∷ []) room 0 (omega arith));
        truncated = cut;
      }

module _ {E : Type 0} ⦃sys : System E⦄ (input output : E → List ℕ) (stream : IsStream input output)
    (coming : List ℕ) where
  -- So many of the bytes that were to come have been taken.
  abbrev pub Took : ℕ → E → Type 0
  Took j w = (bs : List ℕ) × (length bs ≡ j) × (coming ≡ bs ++ input w)

  Took-more :
      (j n : ℕ) (w w' : E) (bs : List ℕ)
      → length bs ≡ n
      → input w ≡ bs ++ input w'
      → Took j w
      → Took (j + n) w'
  Took-more j n w w' bs e split (before, count, all) = (
    before ++ bs,
    omega (arith, length-append before bs, count, e),
    all ∙ ap (λ l. before ++ l) split ∙ sym (append_assoc before bs (input w')),
  )

  -- A read that keeps nothing.
  skip-Took :
      (G : Client → Type 0) (j n : ℕ)
      → Gives
          (λ s. G s.client × Took j s.world)
          (λ _ s. G s.client × Took (j + n) s.world)
          (transport_recv n)
  skip-Took G j n = record {
    at = λ s h.
        EndsOr-mono (Unit {0}) (transport_recv n s)
          (λ bs s' r. (subst G (sym r.2) h.0, Took-more j n s.world s'.world bs r.0 r.1 h.1))
          (λ s' x. x) (recv-Yields input output stream n s);
  }

  Took-none : (j skip : ℕ) (w : E) → skip ≡ 0 → Took j w → Took (j + skip) w
  Took-none j skip w e (bs, count, all) = (bs, omega (arith, count, e), all)

  pieces :
      (j skip : ℕ)
      → j + (if ltb 256 skip then 256 else skip) + (skip - (if ltb 256 skip then 256 else skip))
        ≡ j + skip
  pieces j skip = ground arith

  whole : (n : ℕ) → server_name_max - 1 < n → server_name_max - 1 + (n - (server_name_max - 1)) ≡ n
  whole n h = omega arith

  skip_loop-Took :
      (G : Client → Type 0) (fuel j skip : ℕ)
      → Gives
          (λ s. G s.client × Took j s.world)
          (λ _ s. G s.client × Took (j + skip) s.world)
          (skip_loop fuel skip)
  unfolding skip_loop
  skip_loop-Took G zero j skip =
      Safe-if (skip == 0)
        (λ e.
          let z : skip ≡ 0 = (==_iff skip 0).0 e in
          Safe-pure tt (λ s h. (h.0, Took-none j skip s.world z h.1)))
        (λ _. record { at = λ s h. tt })
  skip_loop-Took G (suc fuel) j skip =
      Safe-if (skip == 0)
        (λ e.
          let z : skip ≡ 0 = (==_iff skip 0).0 e in
          Safe-pure tt (λ s h. (h.0, Took-none j skip s.world z h.1)))
        (λ _.
          let chunk = if ltb 256 skip then 256 else skip in
          Safe-bind (skip-Took G j chunk) λ _.
            Safe-post (λ _ s h. (h.0, (h.1.0, h.1.1 ∙ pieces j skip, h.1.2)))
              (skip_loop-Took G fuel (j + chunk) (skip - chunk)))

  -- The read of the name, into the array.
  name-Took :
      (m : ℕ)
      → m ≤ server_name_max
      → Gives
          (λ s. (length s.client.conn_info.name ≡ server_name_max) × (input s.world ≡ coming))
          (λ _ s. HasFront m coming s.client.conn_info.name × Took m s.world)
          (transport_recv_to store_name m)
  name-Took m fits = record {
    at = λ s h.
        EndsOr-mono (Unit {0}) (transport_recv_to store_name m s)
          (λ bs s' r. (
            same-HasFront _ m _ coming _ s'.client.conn_info.name r.0 (sym r.1 ∙ h.1)
                (sym (ap (λ (c : Client). c.conn_info.name) r.2))
                (stored-HasFront s.client.conn_info.name bs (input s'.world) h.0
                  (omega (arith, r.0, fits))),
            (bs, r.0, sym h.1 ∙ r.1),
          ))
          (λ s' x. x) (recv_to-Yields input output stream store_name m s);
  }

  -- The end of the name, once `m` bytes of it are there.
  end-IsNamed :
      (m n flag : ℕ)
      → m ≡ min n (server_name_max - 1)
      → flag ≡ (if ltb (server_name_max - 1) n then 1 else 0)
      → Gives
          (λ s. HasFront m coming s.client.conn_info.name × Took m s.world)
          (λ _ s. IsNamed n coming s.client.conn_info × Took m s.world)
          (modify_client (end_name m flag))
  end-IsNamed m n flag last cut =
      Safe-modify _ (λ s h. (ended-IsNamed m n flag coming s.client.conn_info h.0 last cut, h.1))

  read_name-Gives :
      (n : ℕ)
      → Gives
          (λ s. (length s.client.conn_info.name ≡ server_name_max) × (input s.world ≡ coming))
          (λ _ s. IsNamed n coming s.client.conn_info × Took n s.world)
          (read_name n)
  unfolding read_name
  read_name-Gives n =
      Safe-if (ltb 0 n)
        (λ _.
          Safe-if (ltb (server_name_max - 1) n)
            (λ long. Safe-bind (name-Took (server_name_max - 1) (omega arith)) λ _.
              Safe-bind
                (end-IsNamed (server_name_max - 1) n 1
                  (omega (arith, ltb→lt (server_name_max - 1) n long)) (rw long refl))
                λ _.
                  Safe-post
                    (λ _ s h.
                      (h.0, (h.1.0, h.1.1 ∙ whole n (ltb→lt (server_name_max - 1) n long), h.1.2)))
                    (skip_loop-Took (λ c. IsNamed n coming c.conn_info) (n - (server_name_max - 1))
                      (server_name_max - 1) (n - (server_name_max - 1))))
            (λ short.
              Safe-bind (name-Took n (omega (arith, ltb→le (server_name_max - 1) n short))) λ _.
                end-IsNamed n n 0 (omega (arith, ltb→le (server_name_max - 1) n short))
                  (rw short refl)))
        (λ empty.
          let z : n ≡ 0 = omega (arith, ltb→le 0 n empty) in
          rw z (
            Safe-pre {P = λ s. HasFront 0 coming s.client.conn_info.name × Took 0 s.world}
              (λ s h. (
                record { size = h.0; shown = λ i less. absurd (omega arith) },
                ([], refl, sym h.1),
              ))
              (end-IsNamed 0 0 0 (omega arith) refl)))

module _ {E : Type 0} ⦃sys : System E⦄ {input output : E → List ℕ}
    (laws : IsTame input output) where
  -- The part of do_initialization that reads the server's name, in an environment that meets
  -- `Session.IsTame`, on a client in the state CREATED with a transport, for a name of `n` bytes: there is
  -- no fault. Where it goes on, the array `name` has its 256 bytes, begins with the first min(n, 255)
  -- bytes of what was to come, and has a NUL right behind them; `name_truncated` is 1 exactly where n is
  -- more than 255; and all `n` bytes are taken from the stream, so the next message is read from
  -- where it starts.
  pub read_name-Names :
      (k n : ℕ) (s : St E)
      → IsLinked input created k s
      → length s.client.conn_info.name ≡ server_name_max
      → Ends
          (λ _ s'.
            IsLinked input created k s'
            × (IsNamed n (input s.world) s'.client.conn_info
                × Took input output laws.stream (input s.world) n s'.world))
          (IsLinked input created k)
          (read_name n s)
  read_name-Names k n s linked size =
      Yields-and _ _ _ (read_name n s)
        (Ends-mono (read_name n s) (λ _ s' q. q.0) (λ s' x. x.0)
          ((read_name-Safe laws k (λ _. Unit {0}) (λ bs c u. u) (λ last flag c u. u) n).at s
            (linked, tt)))
        ((read_name-Gives input output laws.stream (input s.world) n).at s (size, refl))
