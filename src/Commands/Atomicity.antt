-- ===== src/Commands/Atomicity.antt =====
-- Each command changes all of its tables or nothing (src/commands/).
use hymenium.Store.Session.{Session}
use hymenium.Commands.Cancel
use hymenium.Commands.Complete
use hymenium.Commands.Fail
