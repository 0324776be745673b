-- ===== src/Board/Tests.antt =====
-- internal/service/riskboard.go: two results of a ping.
use dnsgolang.Base.{◌≤◌, true, Option, none, some, [], arith}
use dnsgolang.Base.Text.{Text, txt}
use dnsgolang.Board.{Value, protocol_anomaly}
use dnsgolang.Board.Order.{level, protocol_anomaly_mono}

abbrev no_detail : Text → Option Value
no_detail key = none

protocol_anomaly_mono_example :
    level (protocol_anomaly (txt "ping") true [] no_detail (some 20000))
    ≤ level (protocol_anomaly (txt "ping") true [] no_detail (some 450000))
protocol_anomaly_mono_example =
    protocol_anomaly_mono (txt "ping") true [] no_detail (some 20000) (some 450000) (omega arith)
