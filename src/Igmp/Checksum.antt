-- ===== src/Igmp/Checksum.antt =====
-- The checksum of RFC 1071 (internal/bbsim/responders/igmp/igmp.go, tcpipChecksum).
use g_simulator.Prelude.{
  subst, Bool-cases, inl, inr, ℕ, zero, suc, ◌+◌, ◌-◌, ◌*◌, ◌/◌, ◌%◌, ◌≤◌, ◌<◌, ◌≡◌, refl, List, [],
  ◌∷◌, All, ltb, length, u16, u32, arith,
}
use g_simulator.Igmp.{add_words, fold_carries, tcpip_checksum, serialize_v2}

-- The sum of the words, without a width.
abbrev pub words : List ℕ → ℕ
words [] = 0
words (a ∷ []) = a * 256
words (a ∷ b ∷ rest) = a * 256 + b + words rest

abbrev pub IsByte : ℕ → Type 0
IsByte b = b < 256

add_words-words :
    (l : List ℕ) (csum : ℕ)
    → All IsByte l
    → csum + length l * 65536 < 4294967296
    → (add_words l csum ≡ csum + words l) × (words l ≤ length l * 65536)
unfolding add_words
add_words-words [] csum h k = (omega arith, omega arith)
add_words-words (a ∷ []) csum h k = (ground arith, ground arith)
add_words-words (a ∷ b ∷ rest) csum h k =
    let e : u32 (u32 (csum + a * 256) + b) ≡ csum + a * 256 + b = ground arith in
    let r = add_words-words rest (csum + a * 256 + b) h.1.1 (ground arith) in
    (ground (arith, e, r.0), ground (arith, r.1))

-- A round takes off a multiple of 65535, and does not bring a sum to 0.
round_lem :
    (c : ℕ)
    → c < 4294967296
    → (u32 (c / 65536 + c % 65536) + 65535 * (c / 65536) ≡ c)
      × (u32 (c / 65536 + c % 65536) ≤ 131070)
      × (c ≤ 4294967296 * u32 (c / 65536 + c % 65536))
round_lem c h = (omega arith, omega arith, omega arith)

second_lem :
    (c : ℕ)
    → c ≤ 131070
    → 65535 < c
    → (u32 (c / 65536 + c % 65536) + 65535 ≡ c)
      × (u32 (c / 65536 + c % 65536) ≤ 65535)
      × (1 ≤ u32 (c / 65536 + c % 65536))
second_lem c h k = (omega arith, omega arith, omega arith)

-- Two rounds bring a uint32 below 65536; what they take off is a multiple of 65535, and not all of it.
Folded : ℕ → ℕ → ℕ → Type 0
Folded c k f = (c ≡ f + 65535 * k) × (f ≤ 65535) × (c ≤ 4294967296 * f)

fold_lem : (c : ℕ) → c < 4294967296 → (k : ℕ) × Folded c k (fold_carries 2 c)
unfolding fold_carries Folded
fold_lem c h = elim (Bool-cases (ltb 65535 c)) [
  | inr small ↦ (0, ground (arith, small))
  | inl large ↦
      let d = u32 (c / 65536 + c % 65536) in
      let r = round_lem c h in
      elim (Bool-cases (ltb 65535 d)) [
        | inr done ↦ (c / 65536, ground (arith, large, done, r))
        | inl again ↦
            let t = second_lem d r.1 (ground (arith, again)) in
            (c / 65536 + 1, ground (arith, large, again, r, t))
      ]
]

-- The loop has ended after two rounds: more of them change nothing.
fold-stays : (n c : ℕ) → c ≤ 65535 → fold_carries n c ≡ c
unfolding fold_carries
fold-stays zero c h = refl
fold-stays (suc n) c h = ground arith

pub fold-enough : (n c : ℕ) → c < 4294967296 → fold_carries (suc (suc n)) c ≡ fold_carries 2 c
unfolding fold_carries
fold-enough n c h =
    let d = u32 (c / 65536 + c % 65536) in
    let r = round_lem c h in
    ground
      (arith, λ (k : 65535 < d). fold-stays n (u32 (d / 65536 + d % 65536)) (second_lem d r.1 k).1)

cancelled :
    (s f c k g j : ℕ) → c ≡ 65535 - f → Folded s k f → Folded (s + c) j g → 65535 - u16 g ≡ 0
unfolding Folded
cancelled s f c k g j e h l =
    let m : g ≡ 65535 * (k + 1 - j) = omega (arith, e, h.0, h.1, l.0, l.1) in
    omega (arith, e, h.0, h.1, l.0, l.1, l.2)

-- The checksum of an IGMPv2 message of bytes, shorter than 65536, that SerializeTo has put a checksum
-- in is 0, which is how a receiver of RFC 1071 tells that the message is intact.
pub serialize_v2-verifies :
    (kind max_response_time : ℕ) (rest : List ℕ)
    → IsByte kind
    → IsByte max_response_time
    → All IsByte rest
    → length rest < 65532
    → tcpip_checksum (serialize_v2 kind max_response_time rest) 0 ≡ 0
unfolding tcpip_checksum serialize_v2 Folded
serialize_v2-verifies kind max_response_time rest hk hm hr len =
    let blank = kind ∷ max_response_time ∷ 0 ∷ 0 ∷ rest in
    let c = tcpip_checksum blank 0 in
    let filled = kind ∷ max_response_time ∷ c / 256 ∷ c % 256 ∷ rest in
    let small : c < 65536 = ground arith in
    let plain =
      add_words-words blank 0 (hk, (hm, (ground arith, (ground arith, hr)))) (ground arith) in
    let full =
      add_words-words filled 0 (hk, (hm, (ground (arith, small), (ground arith, hr))))
        (ground arith) in
    let (k, h) = fold_lem (add_words blank 0) (ground (arith, plain)) in
    let (j, l) = fold_lem (add_words filled 0) (ground (arith, full)) in
    let total : add_words filled 0 ≡ add_words blank 0 + c = ground (arith, plain.0, full.0) in
    cancelled (add_words blank 0) (fold_carries 2 (add_words blank 0)) c k
      (fold_carries 2 (add_words filled 0)) j (ground (arith, h)) h
      (subst (λ t. Folded t j (fold_carries 2 (add_words filled 0))) total l)
