-- ===== src/Protocol/Datagram/Addresses.antt =====
-- Marshalled addresses: each address has one form, which reads back as it.
use tailscale_railway_quic_b.Common.{
  ℕ, ◌+◌, ◌-◌, ◌*◌, ◌/◌, ◌%◌, ◌^◌, ◌<◌, ◌≤◌, ◌≡◌, refl, ap, ap₂, ◌∙◌, Bytes, [], ◌∷◌, ◌++◌, length,
  take, drop, ltb, arith, ok, ◌>>=◌, >>=-eq-ok, ok-injective, All-take, All-drop, subst, All,
  length-append, take_front, drop_front, take-append-drop, length-drop, Bool-cases, inl, inr,
}
use tailscale_railway_quic_b.Net.{Addr, zero_addr, v4, v6, AddrPort}
use tailscale_railway_quic_b.Protocol.Words.{
  IsByte, be32, from_be32, be64, from_be64, from_be32-be32, from_be64-be64, be64-from_be64,
}
use tailscale_railway_quic_b.Protocol.Datagram.{
  marshal_addr, marshal_addr_port, unmarshal_addr, unmarshal_port, unmarshal_addr_port,
}

-- The addresses that Go's types can hold.
abbrev pub IsAddr : Addr → Type 0
IsAddr zero_addr = Unit {0}
IsAddr (v4 a) = a < 2 ^ 32
IsAddr (v6 a z) = (a < 2 ^ 128) × All IsByte z

pub record IsAddrPort (a : AddrPort) : Type 0 where
  pub is_addr : IsAddr a.addr
  pub is_port : a.port < 2 ^ 16

halves : (a : ℕ) → a < 2 ^ 128 → a / 2 ^ 64 * 2 ^ 64 + a % 2 ^ 64 ≡ a
halves a h = omega arith

unmarshal-marshal_addr : (a : Addr) → IsAddr a → unmarshal_addr (marshal_addr a) ≡ ok a
unfolding unmarshal_addr marshal_addr
unmarshal-marshal_addr zero_addr h = refl
unmarshal-marshal_addr (v4 a) h = ap (λ x. ok (v4 x)) (from_be32-be32 a h)
unmarshal-marshal_addr (v6 a z) (h, _) = rw (
  from_be64-be64 (a / 2 ^ 64) (omega arith),
  from_be64-be64 (a % 2 ^ 64) (omega arith),
  halves a h,
)

back_two : (x : Bytes) (p q : ℕ) → length (x ++ p ∷ q ∷ []) - 2 ≡ length x
back_two x p q = omega (arith, length-append x (p ∷ q ∷ []))

-- The last two bytes are the port, and the address stands before them.
unmarshal_split :
    (x : Bytes) (p q : ℕ)
    → unmarshal_addr_port (x ++ p ∷ q ∷ [])
      ≡ (unmarshal_addr x >>= λ addr. ok (record { addr = addr; port = p + q * 256 }))
unfolding unmarshal_addr_port
unmarshal_split x p q =
    rw (back_two x p q, take_front x (p ∷ q ∷ []), drop_front x (p ∷ q ∷ []))
      (ground (arith, length-append x (p ∷ q ∷ [])))

pub unmarshal-marshal :
    (a : AddrPort) → IsAddrPort a → unmarshal_addr_port (marshal_addr_port a) ≡ ok a
unfolding marshal_addr_port
unmarshal-marshal a h = rw (unmarshal_split, unmarshal-marshal_addr a.addr h.is_addr) (ground arith)

pub marshal_lengths : (a : AddrPort) → 2 ≤ length (marshal_addr_port a)
unfolding marshal_addr_port
marshal_lengths a =
    omega (arith, length-append (marshal_addr a.addr) ((a.port % 256) ∷ (a.port / 256) ∷ []))

-- Two words side by side.
joined :
    (x y : ℕ)
    → x < 2 ^ 64
    → y < 2 ^ 64
    → ((x * 2 ^ 64 + y) / 2 ^ 64 ≡ x) × ((x * 2 ^ 64 + y) % 2 ^ 64 ≡ y) × (x * 2 ^ 64 + y < 2 ^ 128)
joined x y hx hy = omega arith

quad_path :
    {a b c d a' b' c' d' : ℕ}
    → a ≡ a'
    → b ≡ b'
    → c ≡ c'
    → d ≡ d'
    → a ∷ b ∷ c ∷ d ∷ [] ≡ a' ∷ b' ∷ c' ∷ d' ∷ []
quad_path p q r s = cc

be32-from_be32 :
    (a b c d : ℕ)
    → IsByte a
    → IsByte b
    → IsByte c
    → IsByte d
    → be32 (from_be32 a b c d) ≡ a ∷ b ∷ c ∷ d ∷ []
be32-from_be32 a b c d ha hb hc hd =
    quad_path (omega arith) (omega arith) (omega arith) (omega arith)

pub from_be64-lt :
    (a b c d e f g h : ℕ)
    → IsByte a
    → IsByte b
    → IsByte c
    → IsByte d
    → IsByte e
    → IsByte f
    → IsByte g
    → IsByte h
    → from_be64 a b c d e f g h < 2 ^ 64
from_be64-lt a b c d e f g h ha hb hc hd he hf hg hh = omega arith

-- The marshalled form of an address is the only one that is read as that address.
marshal-unmarshal_addr :
    (b : Bytes) (a : Addr)
    → All IsByte b
    → unmarshal_addr b ≡ ok a
    → (marshal_addr a ≡ b) × IsAddr a
unfolding unmarshal_addr marshal_addr
marshal-unmarshal_addr [] a hb e =
    subst (λ t. (marshal_addr t ≡ []) × IsAddr t) (ok-injective e) (refl, tt)
marshal-unmarshal_addr (a ∷ b ∷ c ∷ d ∷ []) t (ha, (hb, (hc, (hd, _)))) e =
    subst (λ t. (marshal_addr t ≡ a ∷ b ∷ c ∷ d ∷ []) × IsAddr t) (ok-injective e)
      (be32-from_be32 a b c d ha hb hc hd, omega arith)
marshal-unmarshal_addr (a ∷ b ∷ c ∷ d ∷ e ∷ f ∷ g ∷ h ∷ i ∷ j ∷ k ∷ l ∷ m ∷ n ∷ o ∷ p ∷ zone) t
      (
        ha,
        (
          hb,
          (hc, (hd, (he, (hf, (hg, (hh, (hi, (hj, (hk, (hl, (hm, (hn, (ho, (hp, hz)))))))))))))),
        ),
      )
      w =
    let first = from_be64-lt a b c d e f g h ha hb hc hd he hf hg hh in
    let second = from_be64-lt i j k l m n o p hi hj hk hl hm hn ho hp in
    let (x, y, fits) =
      joined (from_be64 a b c d e f g h) (from_be64 i j k l m n o p) first second in
    subst
      (λ t.
        (marshal_addr t ≡ a ∷ b ∷ c ∷ d ∷ e ∷ f ∷ g ∷ h ∷ i ∷ j ∷ k ∷ l ∷ m ∷ n ∷ o ∷ p ∷ zone)
        × IsAddr t)
      (ok-injective w)
      (
        ap₂ (λ u v. (be64 u ++ be64 v) ++ zone) x y
            ∙ ap₂ (λ u v. (u ++ v) ++ zone) (be64-from_be64 a b c d e f g h ha hb hc hd he hf hg hh)
                (be64-from_be64 i j k l m n o p hi hj hk hl hm hn ho hp),
        (fits, hz),
      )
marshal-unmarshal_addr _ t hb e = absurd (cc)

-- A list of two bytes or more ends in the two that `drop` leaves.
unmarshal_port_bytes :
    (b : Bytes)
    → length b ≡ 2
    → All IsByte b
    → ((unmarshal_port b % 256) ∷ (unmarshal_port b / 256) ∷ [] ≡ b) × (unmarshal_port b < 2 ^ 16)
unfolding unmarshal_port
unmarshal_port_bytes (a ∷ b ∷ []) h (ha, (hb, _)) =
    (ap₂ (λ x y. x ∷ y ∷ []) (omega arith) (omega arith), omega arith)
unmarshal_port_bytes _ h k = absurd (omega arith)

pub marshal-unmarshal :
    (b : Bytes) (a : AddrPort)
    → All IsByte b
    → unmarshal_addr_port b ≡ ok a
    → (marshal_addr_port a ≡ b) × IsAddrPort a
unfolding unmarshal_addr_port marshal_addr_port
marshal-unmarshal b a hb e = elim (Bool-cases (ltb (length b) 2)) [
  | inl short ↦ absurd (ground arith)
  | inr long ↦
      let n : ℕ = length b - 2 in
      let (t, et, ea) =
        >>=-eq-ok (unmarshal_addr (take n b)) _ (rw (long, unmarshal_addr_port) at e) in
      let (m, is_addr) = marshal-unmarshal_addr (take n b) t (All-take IsByte n b hb) et in
      let (q, is_port) =
        unmarshal_port_bytes (drop n b) (ground (arith, length-drop n b))
          (All-drop IsByte n b hb) in
      subst (λ (x : AddrPort). (marshal_addr_port x ≡ b) × IsAddrPort x) (ok-injective ea)
        (ap₂ ◌++◌ m q ∙ take-append-drop n b, record { is_addr = is_addr; is_port = is_port })
]
