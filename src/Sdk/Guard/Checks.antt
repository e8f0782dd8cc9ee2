-- ===== src/Sdk/Guard/Checks.antt =====
-- The check of an authorization between the decision and the action. The guard's engine issues only
-- authorizations that pass, so what the check is for shows at an ALLOW with any authorization.
use oxdeai_core.Authorization.{Authorization}
use oxdeai_core.Intent.{Intent}
use oxdeai_core.State.{State}
