-- ===== src/Time/Human.antt =====
-- `time.human` (face.js): how long ago a time was.
use cortono.Prelude.{
  Text, codes, decimal, ◌++◌, ℕ, ◌+◌, ◌-◌, ◌*◌, ◌/◌, ◌<◌, ◌≤◌, ◌≡◌, ap, ◌⊎◌, inl, inr, Bool-cases,
  ◌&&◌, ltb, leb, arith, if◌then◌else◌,
}
use cortono.Time.Defs.{unify}
use mathlib.Core.Path.{subst}
use cortono.Time.Format.{moment, unify_lem}

abbrev pub minute_ms : ℕ
minute_ms = 1000 * 60

abbrev pub hour_ms : ℕ
hour_ms = 1000 * 60 * 60

abbrev pub day_ms : ℕ
day_ms = 1000 * 60 * 60 * 24

abbrev pub month_ms : ℕ
month_ms = 1000 * 60 * 60 * 24 * 30

abbrev pub year_ms : ℕ
year_ms = 1000 * 60 * 60 * 24 * 30 * 12

-- The answer before it is written out: the unit and the number before it.
pub data Ago : Type 0 where
  just_now : Ago
  minutes hours days months years : ℕ → Ago

-- The ladder of tests. The difference of the two times is negative for a time to come, and is then
-- below every bound; the truncated difference is 0 there, which is below them too. `int(x / k)` is
-- the division of whole numbers.
unfoldable pub ago_of : ℕ → Ago
ago_of diff =
    if ltb diff minute_ms
    then just_now
    else if leb minute_ms diff && ltb diff hour_ms
    then minutes (diff / minute_ms)
    else if leb hour_ms diff && ltb diff day_ms
    then hours (diff / hour_ms)
    else if leb day_ms diff && ltb diff month_ms
    then days (diff / day_ms)
    else if leb month_ms diff && ltb diff year_ms
    then months (diff / month_ms)
    else years (diff / year_ms)

abbrev pub ago_text : Ago → Text
ago_text just_now = codes "刚刚"
ago_text (minutes n) = decimal n ++ codes "分钟前"
ago_text (hours n) = decimal n ++ codes "小时前"
ago_text (days n) = decimal n ++ codes "天前"
ago_text (months n) = decimal n ++ codes "月前"
ago_text (years n) = decimal n ++ codes "年前"

unfoldable pub human : ℕ → ℕ → Text
unfolding ago_of
human cur_time time = ago_text (ago_of (cur_time - unify time))

-- The ladder's answer for a difference in each of its ranges.
module _ (d n : ℕ) where
  ago_of-minutes : 1 ≤ n → n < 60 → n * 60000 ≤ d → d < (n + 1) * 60000 → ago_of d ≡ minutes n
  unfolding ago_of
  ago_of-minutes a b c e = let q : d / 60000 ≡ n = omega arith in ground (arith, q)

  ago_of-hours : 1 ≤ n → n < 24 → n * 3600000 ≤ d → d < (n + 1) * 3600000 → ago_of d ≡ hours n
  unfolding ago_of
  ago_of-hours a b c e = let q : d / 3600000 ≡ n = omega arith in ground (arith, q)

  ago_of-days : 1 ≤ n → n < 30 → n * 86400000 ≤ d → d < (n + 1) * 86400000 → ago_of d ≡ days n
  unfolding ago_of
  ago_of-days a b c e = let q : d / 86400000 ≡ n = omega arith in ground (arith, q)

  ago_of-months :
      1 ≤ n → n < 12 → n * 2592000000 ≤ d → d < (n + 1) * 2592000000 → ago_of d ≡ months n
  unfolding ago_of
  ago_of-months a b c e = let q : d / 2592000000 ≡ n = omega arith in ground (arith, q)

  ago_of-years : 1 ≤ n → n * 31104000000 ≤ d → d < (n + 1) * 31104000000 → ago_of d ≡ years n
  unfolding ago_of
  ago_of-years a c e = let q : d / 31104000000 ≡ n = omega arith in ground (arith, q)

ago_of-just_now : (d : ℕ) → d < 60000 → ago_of d ≡ just_now
unfolding ago_of
ago_of-just_now d h = ground arith

-- The units that are named, with months of 30 days and years of 12 months.
pub data Span : Type 0 where
  minute hour day month year : Span

abbrev pub milliseconds : Span → ℕ
milliseconds minute = 60000
milliseconds hour = 3600000
milliseconds day = 86400000
milliseconds month = 2592000000
milliseconds year = 31104000000

abbrev pub behind : Span → Text
behind minute = codes "分钟前"
behind hour = codes "小时前"
behind day = codes "天前"
behind month = codes "月前"
behind year = codes "年前"

-- The numbers that are shown with a unit.
abbrev pub Counts : Span → ℕ → Type 0
Counts minute n = (1 ≤ n) × (n < 60)
Counts hour n = (1 ≤ n) × (n < 24)
Counts day n = (1 ≤ n) × (n < 30)
Counts month n = (1 ≤ n) × (n < 12)
Counts year n = 1 ≤ n

-- What a text says, at one time, of another.
abbrev pub Tells : ℕ → ℕ → Text → Type 0
Tells cur_time at shown =
    ((cur_time < at + 60000) × (shown ≡ codes "刚刚"))
    ⊎ ((u : Span) × (n : ℕ) × Counts u n
        × (at + n * milliseconds u ≤ cur_time)
        × (cur_time < at + (n + 1) * milliseconds u)
        × (shown ≡ decimal n ++ behind u))

module _ (cur_time time : ℕ) where
  human-ago_text : (a : Ago) → ago_of (cur_time - unify time) ≡ a → human cur_time time ≡ ago_text a
  unfolding human
  human-ago_text a e = ap ago_text e

  human-Tells-unify : Tells cur_time (unify time) (human cur_time time)
  human-Tells-unify =
      let d = cur_time - unify time in
      elim (Bool-cases (ltb d 60000)) [
        | inl a ↦ inl (ground arith, human-ago_text just_now (ago_of-just_now d (ground arith)))
        | inr a ↦ elim (Bool-cases (ltb d 3600000)) [
          | inl b ↦
              let n = d / 60000 in
              let c : (1 ≤ n) × (n < 60) = ground arith in
              inr (
                minute,
                n,
                c,
                ground arith,
                ground arith,
                human-ago_text (minutes n) (ago_of-minutes d n c.0 c.1 (omega arith) (omega arith)),
              )
          | inr b ↦ elim (Bool-cases (ltb d 86400000)) [
            | inl g ↦
                let n = d / 3600000 in
                let c : (1 ≤ n) × (n < 24) = ground arith in
                inr (
                  hour,
                  n,
                  c,
                  ground arith,
                  ground arith,
                  human-ago_text (hours n) (ago_of-hours d n c.0 c.1 (omega arith) (omega arith)),
                )
            | inr g ↦ elim (Bool-cases (ltb d 2592000000)) [
              | inl h ↦
                  let n = d / 86400000 in
                  let c : (1 ≤ n) × (n < 30) = ground arith in
                  inr (
                    day,
                    n,
                    c,
                    ground arith,
                    ground arith,
                    human-ago_text (days n) (ago_of-days d n c.0 c.1 (omega arith) (omega arith)),
                  )
              | inr h ↦ elim (Bool-cases (ltb d 31104000000)) [
                | inl k ↦
                    let n = d / 2592000000 in
                    let c : (1 ≤ n) × (n < 12) = ground arith in
                    inr (
                      month,
                      n,
                      c,
                      ground arith,
                      ground arith,
                      human-ago_text (months n)
                          (ago_of-months d n c.0 c.1 (omega arith) (omega arith)),
                    )
                | inr k ↦
                    let n = d / 31104000000 in
                    let c : 1 ≤ n = ground arith in
                    inr (
                      year,
                      n,
                      c,
                      ground arith,
                      ground arith,
                      human-ago_text (years n) (ago_of-years d n c (omega arith) (omega arith)),
                    )
              ]
            ]
          ]
        ]
      ]

  -- human shows "just now" only for a time that is less than a minute ago or to come; else it
  -- shows a number and a unit, where the number is at least 1 and below the count of its unit in
  -- the next one, and the time, in milliseconds or, if it has ten digits, in seconds, lies between
  -- that many units ago and one more, with months of 30 days and years of 12 months.
  pub human-Tells : Tells cur_time (moment time) (human cur_time time)
  human-Tells =
      subst (λ at. Tells cur_time at (human cur_time time)) (unify_lem time) human-Tells-unify
