-- ===== src/Net/Printing.antt =====
-- netip.Addr.String for IPv4, and that netip.ParseAddr reads it back.
use quic_lab.Common.{
  ℕ, ◌+◌, ◌-◌, ◌*◌, ◌/◌, ◌%◌, ◌^◌, ◌≤◌, ◌<◌, ◌≡◌, refl, sym, ap, ◌∙◌, inl, inr, true, false, ◌&&◌,
  ◌||◌, some, List, [], ◌∷◌, ◌++◌, append-nil, arith, ltb, ◌==◌, if◌then◌else◌, ltb→lt, le→ltb,
  Bool-cases, length,
}
use quic_lab.Net.{is_digit, ip4_loop, parse_ip4}

abbrev pub octet : ℕ → List ℕ
octet o =
    if ltb o 10
    then (b'0' + o) ∷ []
    else (if ltb o 100
        then (b'0' + o / 10) ∷ (b'0' + o % 10) ∷ []
        else (b'0' + o / 100) ∷ (b'0' + o / 10 % 10) ∷ (b'0' + o % 10) ∷ [])

unfoldable pub print_ip4 : ℕ → List ℕ
print_ip4 a =
    octet (a / 2 ^ 24 % 256)
    ++ (b'.'
        ∷ (octet (a / 2 ^ 16 % 256)
            ++ (b'.' ∷ (octet (a / 2 ^ 8 % 256) ++ (b'.' ∷ octet (a % 256))))))

digit_step :
    (d val val' len count acc : ℕ) (cs : List ℕ)
    → d < 10
    → (len == 1 && val == 0) ≡ false
    → val * 10 + d ≡ val'
    → val' ≤ 255
    → ip4_loop val len count acc ((b'0' + d) ∷ cs) ≡ ip4_loop val' (len + 1) count acc cs
unfolding ip4_loop
digit_step d val val' len count acc cs small lead value fits =
    let v : val * 10 + (b'0' + d - b'0') ≡ val' = omega arith in
    let g : is_digit (b'0' + d) ≡ true = ground arith in rw (v, g, lead, le→ltb 255 val' fits) refl

dot_step :
    (val len count acc c : ℕ) (cs : List ℕ)
    → 0 < len
    → count < 3
    → ip4_loop val len count acc (b'.' ∷ c ∷ cs)
      ≡ ip4_loop 0 0 (count + 1) (acc * 256 + val) (c ∷ cs)
unfolding ip4_loop
dot_step val len count acc c cs some_digit more =
    let stop : (len == 0 || length (c ∷ cs) == 0 || count == 3) ≡ false = ground arith in
    rw stop refl

-- An octet is read as its value, with at least one digit.
octet_step :
    (o count acc : ℕ) (cs : List ℕ)
    → o < 256
    → (len : ℕ) × (0 < len) × (ip4_loop 0 0 count acc (octet o ++ cs) ≡ ip4_loop o len count acc cs)
octet_step o count acc cs small = elim (Bool-cases (ltb o 10)) [
  | inl one ↦ rw one (
    1,
    omega arith,
    digit_step o 0 o 0 count acc cs (ltb→lt o 10 one) refl (omega arith) (omega arith),
  )
  | inr more ↦ elim (Bool-cases (ltb o 100)) [
    | inl two ↦
        rw (more, two)
          (
            2,
            omega arith,
            digit_step (o / 10) 0 (o / 10) 0 count acc _ (ground arith) refl (omega arith)
                  (omega arith)
                ∙ digit_step (o % 10) (o / 10) o 1 count acc cs (omega arith) (ground arith)
                    (omega arith) (omega arith),
          )
    | inr three ↦
        rw (more, three)
          (
            3,
            omega arith,
            digit_step (o / 100) 0 (o / 100) 0 count acc _ (omega arith) refl (omega arith)
                  (omega arith)
                ∙ digit_step (o / 10 % 10) (o / 100) (o / 10) 1 count acc _ (omega arith)
                    (ground arith) (omega arith) (omega arith)
                ∙ digit_step (o % 10) (o / 10) o 2 count acc cs (omega arith) refl (omega arith)
                    (omega arith),
          )
  ]
]

-- An octet and a dot, with something behind the dot.
octet_dot :
    (o count acc c : ℕ) (cs : List ℕ)
    → o < 256
    → count < 3
    → ip4_loop 0 0 count acc (octet o ++ (b'.' ∷ c ∷ cs))
      ≡ ip4_loop 0 0 (count + 1) (acc * 256 + o) (c ∷ cs)
octet_dot o count acc c cs small more =
    let (len, pos_len, e) = octet_step o count acc (b'.' ∷ c ∷ cs) small in
    e ∙ dot_step o len count acc c cs pos_len more

octet_cons : (o : ℕ) (cs : List ℕ) → (c : ℕ) × (ds : List ℕ) × (octet o ++ cs ≡ c ∷ ds)
octet_cons o cs = elim (Bool-cases (ltb o 10)) [
  | inl one ↦ rw one (b'0' + o, cs, refl)
  | inr more ↦ elim (Bool-cases (ltb o 100)) [
    | inl two ↦ rw (more, two) (b'0' + o / 10, (b'0' + o % 10) ∷ cs, refl)
    | inr three ↦
        rw (more, three) (b'0' + o / 100, (b'0' + o / 10 % 10) ∷ (b'0' + o % 10) ∷ cs, refl)
  ]
]

octet_then :
    (o o' count acc : ℕ) (cs : List ℕ)
    → o < 256
    → count < 3
    → ip4_loop 0 0 count acc (octet o ++ (b'.' ∷ (octet o' ++ cs)))
      ≡ ip4_loop 0 0 (count + 1) (acc * 256 + o) (octet o' ++ cs)
octet_then o o' count acc cs small more =
    let (c, ds, e) = octet_cons o' cs in rw e (octet_dot o count acc c ds small more)

-- netip.ParseAddr reads back every IPv4 address that netip.Addr.String has printed.
pub parse_ip4-print_ip4 : (a : ℕ) → a < 2 ^ 32 → parse_ip4 (print_ip4 a) ≡ some a
unfolding parse_ip4 print_ip4
parse_ip4-print_ip4 a h =
    octet_then o1 o2 0 0 (b'.' ∷ (octet o3 ++ (b'.' ∷ octet o4))) (omega arith) (omega arith)
    ∙ octet_then o2 o3 1 (0 * 256 + o1) (b'.' ∷ octet o4) (omega arith) (omega arith)
    ∙ ap (λ l. ip4_loop 0 0 2 ((0 * 256 + o1) * 256 + o2) (octet o3 ++ (b'.' ∷ l)))
        (sym (append-nil (octet o4)))
    ∙ octet_then o3 o4 2 ((0 * 256 + o1) * 256 + o2) [] (omega arith) (omega arith)
    ∙ last.2
    ∙ unfold ip4_loop in ap some value
  where
    o1 : ℕ
    o1 = a / 2 ^ 24 % 256

    o2 : ℕ
    o2 = a / 2 ^ 16 % 256

    o3 : ℕ
    o3 = a / 2 ^ 8 % 256

    o4 : ℕ
    o4 = a % 256

    last :
        (len : ℕ) × (0 < len)
        × (ip4_loop 0 0 3 (((0 * 256 + o1) * 256 + o2) * 256 + o3) (octet o4 ++ [])
            ≡ ip4_loop o4 len 3 (((0 * 256 + o1) * 256 + o2) * 256 + o3) [])
    last = octet_step o4 3 (((0 * 256 + o1) * 256 + o2) * 256 + o3) [] (omega arith)

    value : (((0 * 256 + o1) * 256 + o2) * 256 + o3) * 256 + o4 ≡ a
    value = omega arith
