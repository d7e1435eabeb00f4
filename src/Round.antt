-- ===== src/Round.antt =====
-- final_project/main_server.cpp and final_project/client.cpp together: from the challenge that the
-- server makes, over the packet and the client's line, to the server's handler of that line.
pub mod Words
pub mod Market
pub mod Play
pub mod Won
mod Examples
