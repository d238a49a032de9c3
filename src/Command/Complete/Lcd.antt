-- ===== src/Command/Complete/Lcd.antt =====
-- The common start of the completions.
use mksh.Prelude.{
  ℕ, zero, suc, ◌≤◌, ◌≡◌, refl, sym, ◌∙◌, none, some, List, [], ◌∷◌, arith, if◌then◌else◌, length,
  take, ltb,
}
use mathlib.Core.Path.{subst}
use mksh.Cstr.{Bytes}
use mksh.Command.Complete.{common, lcd_loop, cmd_lcd}

-- `s` and `t` agree in their first `l` characters, and have so many.
pub record Agree (l : ℕ) (s t : Bytes) : Type 0 where
  pub same : take l t ≡ take l s
  pub long : l ≤ length t

common-same : (s t : Bytes) (l : ℕ) → l ≤ common s t → take l t ≡ take l s
unfolding common
common-same s t zero h = refl
common-same [] t (suc l) h = absurd (omega arith)
common-same (c ∷ s) [] (suc l) h = absurd (omega arith)
common-same (c ∷ s) (d ∷ t) (suc l) h = ground (arith, common-same s t l)

common-long : (s t : Bytes) → (common s t ≤ length s) × (common s t ≤ length t)
unfolding common
common-long [] t = (omega arith, omega arith)
common-long (c ∷ s) [] = (omega arith, omega arith)
common-long (c ∷ s) (d ∷ t) = ground (arith, common-long s t)

abbrev pub AllAgree : ℕ → Bytes → List Bytes → Type 0
AllAgree l s [] = Unit {0}
AllAgree l s (t ∷ rest) = Agree l s t × AllAgree l s rest

AllAgree-trans :
    (l : ℕ) (s t : Bytes) (rest : List Bytes) → Agree l s t → AllAgree l t rest → AllAgree l s rest
AllAgree-trans l s t [] h k = tt
AllAgree-trans l s t (u ∷ rest) h k =
    (record { same = k.0.same ∙ h.same; long = k.0.long }, AllAgree-trans l s t rest h k.1)

-- The loop's result is at most what it started with, and all strings agree up to it.
lcd_loop-agrees :
    (s : Bytes) (rest : List Bytes) (l : ℕ)
    → (m : ℕ) × (lcd_loop s rest (some l) ≡ some m) × (m ≤ l) × AllAgree m s rest
unfolding lcd_loop
lcd_loop-agrees s [] l = (l, refl, omega arith, tt)
lcd_loop-agrees s (t ∷ rest) l =
    let k : ℕ = if ltb (common s t) l then common s t else l in
    let (m, e, le, all) = lcd_loop-agrees t rest k in
    let short : (k ≤ l) × (k ≤ common s t) = (ground arith, ground arith) in
    let here : Agree m s t = record {
      same = common-same s t m (omega (arith, short));
      long = omega (arith, short, common-long s t);
    } in
    (m, e, omega (arith, short), (here, AllAgree-trans m s t rest here all))

common-Agree : (s t : Bytes) (m : ℕ) → m ≤ common s t → Agree m s t
common-Agree s t m h = record {
  same = common-same s t m h;
  long = omega (arith, h, common-long s t);
}

-- For two strings or more, each of them has at least `cmd_lcd` characters, and in those it is the
-- first string.
pub cmd_lcd-AllAgree :
    (s t : Bytes) (rest : List Bytes) → AllAgree (cmd_lcd (s ∷ t ∷ rest)) s (t ∷ rest)
unfolding cmd_lcd lcd_loop
cmd_lcd-AllAgree s t rest =
    let (m, e, le, all) = lcd_loop-agrees t rest (common s t) in
    let here : Agree m s t = common-Agree s t m le in
    let both : AllAgree m s (t ∷ rest) = (here, AllAgree-trans m s t rest here all) in
    subst (λ o. AllAgree (elim o [ none ↦ 0 | some l ↦ l ]) s (t ∷ rest)) (sym e) both
