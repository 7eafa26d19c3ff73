-- ===== src/Service/Clients.antt =====
-- The clients that do more than one synchronous call: src/greeter_girl_client.cpp, which prints the
-- reply, and src/greeter_callback_client.cpp, whose callback runs on a thread of gRPC.
pub mod Callback
use cpp_grpc_db.Prelude.{ℕ, ◌-◌, ◌^◌, [], ◌∷◌, ◌++◌, ltb, if◌then◌else◌, Bytes, codes, decimal}
use cpp_grpc_db.Greeting.{HelloGirlRequest, HelloGirlReply}
use cpp_grpc_db.Service.{Status, is_ok}

-- `operator<<` of an `int32`, given by its bit pattern.
unfoldable pub printed_int32 : ℕ → Bytes
printed_int32 n = if ltb n (2 ^ 31) then decimal 10 n else b'-' ∷ decimal 10 (2 ^ 32 - n)

unfoldable pub combined : HelloGirlReply → Bytes
unfolding printed_int32
combined reply =
    codes "message='"
    ++ (reply.message
        ++ (codes "'\nmarriage='"
            ++ (reply.marriage
                ++ (codes "'\nsize="
                    ++ (printed_int32 reply.size
                        ++ (codes "'\nreply_secret=" ++ reply.reply_secret))))))

-- `GirlGreeterClient::SayHello`, over the RPC; its metadata is not read.
unfoldable pub girl_client_say_hello :
    (HelloGirlRequest → Status × HelloGirlReply) → HelloGirlRequest → Bytes
unfolding combined
girl_client_say_hello rpc request =
    let (status, reply) = rpc request in if is_ok status then combined reply else codes "RPC failed"
