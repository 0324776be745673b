-- ===== src/Board.antt =====
-- internal/service/riskboard.go: the arguments of the risk board and its classification of probe
-- results. A measurement is a number of thousandths and not negative; the detail of a result is a
-- function from keys to values. `Order` compares the verdicts on slower and faster results.
pub mod Order
pub mod Tests
use dnsgolang.Base.{
  ℕ, ◌*◌, ◌/◌, Bool, true, false, not, ◌&&◌, ◌||◌, Option, none, some, List, [], ◌∷◌, if◌then◌else◌,
  leb, nat_beq, ◌==◌, text_eq, is_empty,
}
use dnsgolang.Base.Text.{Text, txt}
use dnsgolang.Base.Sets.{has}

abbrev pub window_hours : List Text
window_hours = txt "1h" ∷ txt "24h" ∷ txt "7d" ∷ txt "30d" ∷ txt "90d" ∷ []

abbrev pub supported_protocols : List Text
supported_protocols =
    txt "all" ∷ txt "dns" ∷ txt "http" ∷ txt "ping" ∷ txt "mtr" ∷ txt "traceroute" ∷ []

unfoldable pub normalize_window : Text → Text
normalize_window code = if has code window_hours then code else txt "24h"

unfoldable pub normalize_protocol : Text → Text
normalize_protocol code = if has code supported_protocols then code else txt "all"

abbrev pub measured : List Text
measured = txt "http" ∷ txt "ping" ∷ txt "mtr" ∷ txt "traceroute" ∷ []

unfoldable pub non_dns_protocols : Text → List Text
non_dns_protocols code =
    if code == txt "dns"
    then []
    else if not (code == txt "all")
    then (if has code measured then code ∷ [] else [])
    else measured

pub data Value : Type 0 where
  number : ℕ → Value
  flag : Bool → Value
  other : Value

-- toF
abbrev pub to_f : Option Value → ℕ
to_f (some (number n)) = n
to_f (some (flag b)) = 0
to_f (some other) = 0
to_f none = 0

abbrev pub deref_f : Option ℕ → ℕ
deref_f none = 0
deref_f (some n) = n

-- The measurement of the detail, or else the latency of the result.
abbrev pub or_latency : ℕ → Option ℕ → ℕ
or_latency own latency = if nat_beq own 0 then deref_f latency else own

-- `hasReached && !reached`
abbrev pub not_reached : Option Value → Bool
not_reached (some (flag b)) = not b
not_reached (some (number n)) = false
not_reached (some other) = false
not_reached none = false

pub data Anomaly : Type 0 where
  no_anomaly : Anomaly
  high_anomaly medium_anomaly : Text → Anomaly

abbrev pub thousandths : ℕ
thousandths = 1000

-- The tests that the four cases share: a failure, a first measurement out of bounds, a second one.
abbrev pub graded : Bool → Bool → Bool → Text → Text → Text → Anomaly
graded failure first second on_failure on_first on_second =
    if failure
    then high_anomaly on_failure
    else if first
    then medium_anomaly on_first
    else if second
    then medium_anomaly on_second
    else no_anomaly

unfoldable pub protocol_anomaly : Text → Bool → Text → (Text → Option Value) → Option ℕ → Anomaly
protocol_anomaly protocol success error_code detail latency =
    let failure = not success || not (is_empty error_code) in
    let astray = failure || not_reached (detail (txt "destinationReached")) in
    let average = or_latency (to_f (detail (txt "avgMs"))) latency in
    if protocol == txt "http"
    then (if failure
        then high_anomaly (txt "HTTP 失败或超时")
        else graded (leb 500 (to_f (detail (txt "httpStatus")) / thousandths))
            (leb (1500 * thousandths) (or_latency (to_f (detail (txt "totalMs"))) latency)) false
            (txt "HTTP 5xx 异常") (txt "HTTP 延迟偏高") [])
    else if protocol == txt "ping"
    then graded failure (leb (20 * thousandths) (to_f (detail (txt "lossPct"))))
        (leb (300 * thousandths) average) (txt "PING 失败或超时") (txt "PING 丢包偏高") (txt "PING 延迟偏高")
    else if protocol == txt "mtr"
    then graded astray (leb (20 * thousandths) (to_f (detail (txt "packetLossPct"))))
        (leb (500 * thousandths) average) (txt "MTR 未达目标") (txt "MTR 丢包偏高") (txt "MTR 延迟偏高")
    else if protocol == txt "traceroute"
    then graded astray (leb 20 (to_f (detail (txt "hopCount")) / thousandths))
        (leb (800 * thousandths) (deref_f latency)) (txt "Traceroute 未达目标") (txt "Traceroute 跳数偏高")
        (txt "Traceroute 延迟偏高")
    else no_anomaly
