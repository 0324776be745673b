-- ===== src/Board/Order.antt =====
-- internal/service/riskboard.go: a slower result is never judged milder.
use dnsgolang.Base.{
  [], ℕ, ◌≤◌, ◌≡◌, Bool, true, false, not, ◌||◌, Option, arith, leb, if◌then◌else◌, ◌==◌, text_eq,
  is_empty, ◌*◌, ◌/◌,
}
use dnsgolang.Base.Text.{Text, txt}
use dnsgolang.Board.{
  Value, Anomaly, no_anomaly, high_anomaly, medium_anomaly, graded, deref_f, or_latency, to_f,
  not_reached, protocol_anomaly, thousandths,
}

-- How severe an anomaly is.
abbrev pub level : Anomaly → ℕ
level no_anomaly = 0
level (medium_anomaly t) = 1
level (high_anomaly t) = 2

ite_mono :
    (b : Bool) (x y x' y' : Anomaly)
    → level x ≤ level x'
    → level y ≤ level y'
    → level (if b then x else y) ≤ level (if b then x' else y')
ite_mono true x y x' y' h k = h
ite_mono false x y x' y' h k = k

graded_mono :
    (failure first first' second second' : Bool) (t u v : Text)
    → (first ≡ true → first' ≡ true)
    → (second ≡ true → second' ≡ true)
    → level (graded failure first second t u v) ≤ level (graded failure first' second' t u v)
graded_mono failure first first' second second' t u v h k = ground (arith, h, k)

slow_mono :
    (bound own : ℕ) (fast slow : Option ℕ)
    → deref_f fast ≤ deref_f slow
    → leb bound (or_latency own fast) ≡ true
    → leb bound (or_latency own slow) ≡ true
slow_mono bound own fast slow h k = ground (arith, h, k)

-- For any protocol, with the rest of the result the same, a latency that is missing or lower is
-- never judged more severely.
pub protocol_anomaly_mono :
    (protocol : Text) (success : Bool) (error_code : Text) (detail : Text → Option Value)
    (fast slow : Option ℕ)
    → deref_f fast ≤ deref_f slow
    → level (protocol_anomaly protocol success error_code detail fast)
      ≤ level (protocol_anomaly protocol success error_code detail slow)
unfolding protocol_anomaly
protocol_anomaly_mono protocol success error_code detail fast slow h =
    let failure = not success || not (is_empty error_code) in
    let astray = failure || not_reached (detail (txt "destinationReached")) in
    let of = λ (key : Text). to_f (detail key) in
    let slower = λ (bound : ℕ) (own : ℕ). slow_mono (bound * thousandths) own fast slow h in
    ite_mono (protocol == txt "http") _ _ _ _
      (ite_mono failure _ _ _ _ (omega arith) (
        graded_mono (leb 500 (of (txt "httpStatus") / thousandths)) _ _ false false
          (txt "HTTP 5xx 异常") (txt "HTTP 延迟偏高") [] (slower 1500 (of (txt "totalMs"))) (λ e. e)))
      (ite_mono (protocol == txt "ping") _ _ _ _
        (graded_mono failure (leb (20 * thousandths) (of (txt "lossPct"))) _ _ _ (txt "PING 失败或超时")
          (txt "PING 丢包偏高") (txt "PING 延迟偏高") (λ e. e) (slower 300 (of (txt "avgMs"))))
        (ite_mono (protocol == txt "mtr") _ _ _ _
          (graded_mono astray (leb (20 * thousandths) (of (txt "packetLossPct"))) _ _ _
            (txt "MTR 未达目标") (txt "MTR 丢包偏高") (txt "MTR 延迟偏高") (λ e. e)
            (slower 500 (of (txt "avgMs"))))
          (ite_mono (protocol == txt "traceroute") _ _ _ _
            (graded_mono astray (leb 20 (of (txt "hopCount") / thousandths)) _ _ _
              (txt "Traceroute 未达目标") (txt "Traceroute 跳数偏高") (txt "Traceroute 延迟偏高") (λ e. e)
              (slower 800 0))
            (omega arith))))
