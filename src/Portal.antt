-- ===== src/Portal.antt =====
-- gateflow/static/portal/app.js, the developer portal's page: the values of a JSON body, the query
-- string, the handlers up to each `await`, the event loop, and what is proved of them.
mod Tests
pub mod Value
pub mod Decimal
pub mod Trim
pub mod Query
pub mod Page
pub mod Loop
