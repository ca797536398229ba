-- ===== src/Runbook/Locked/Calls.antt =====
-- apps/runbook/service.py: a locked document through sequences of calls of the service.
use smallstack_tabler.Runbook.Locked.Safe.{Safe}
