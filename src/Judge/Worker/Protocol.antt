-- ===== src/Judge/Worker/Protocol.antt =====
-- `Worker.Handle` follows the protocol of a delivery.
use online_coding_judge.Judge.Types.{Delivery}
use online_coding_judge.Judge.Worker.{Worker, Schedule}
use online_coding_judge.Judge.Worker.Monitor.{Phase, monitored}

module _ {W H : Type 0} (w : Worker W H) (schedule : Schedule) (delivery : Delivery) where
  abbrev m : Worker (W × Phase) H
  m = monitored delivery w
