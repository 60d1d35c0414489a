-- ===== src/Lib.antt =====
-- EncKV: an encrypted key-value store with secondary indexes that are searched without decryption.
--
-- The client (Client/ClientCpp.cpp) derives pseudo-random labels and index entries from its keys and
-- sends each row to one proxy, chosen by a ring of servers (Client/SimConHash.h). The proxy
-- (Proxy/TProxy.cpp) keeps labels and ciphertexts in Redis and answers searches with the tokens that
-- the client sends. Range queries use order-revealing encryption (fastore/ore_blk.cpp), which stands
-- on a small-domain permutation and on AES (fastore/crypto.cpp, fastore/aes.h).
--
-- Base and its children hold shared types, list and number lemmas; Bits the laws of the bitwise
-- operations; Memory byte buffers with checked accesses.
--
-- Fastore/Platform is what fastore/ takes from the processor and from OpenSSL, a parameter everywhere.
-- Fastore/Aes models fastore/aes.h, Fastore/Crypto and Fastore/Prp fastore/crypto.cpp, and Fastore/Ore
-- the functions `ore_*` of fastore/ore_blk.cpp: Ore/Hash the keyed hashes and the generator, Ore/Setup
-- `ore_setup_helper`, which is two functions here, for a query and for an index, Ore/Compare
-- `ore_compare` and the functions on raw buffers. Fastore/Helper models fastore/OREHelper.cpp, which wraps
-- them for the client and the proxy and drops their error codes. Fastore/Blk models the earlier scheme
-- `ore_blk_*` of fastore/ore_blk.cpp, Blk/Memory what it writes to its buffers. An error code is `err`, and an access that C leaves
-- undefined is `fault`. `malloc` is a parameter.
--
-- Proxy models the handler of Proxy/TProxy.cpp, over Redis and HMAC as a parameter (Proxy/Services);
-- Proxy/Order is `OrderSearch`. Its endless loops run on fuel: a search of `n` entries needs `n + 1`
-- rounds. Client models Client/ClientCpp.cpp: the keys and the entries of the indexes, Client/Put `Put`,
-- Client/Lookup `Get` and the queries, Client/Routing the ring and the loop of `Init`; the encryption of
-- values is an argument. Client/Log holds what the indexes with counters share, and Client/Index,
-- Client/Ranked, Client/Range and Client/Column follow rows from `Put` to the search on the proxy,
-- for the two equality indexes, the order index and the column index.
--
-- Caravel/BukHash models the hash table of Caravel/BukHash.h; the loop of `bPrime` has as much fuel as its
-- argument, and BukHash/Create is `Create`; the number of items is kept in 32 bits as there. Caravel/ConHash
-- models `SafeSet` and `SafeGet` of Caravel/ConHash.h as a step relation: threads interleave at single
-- accesses to one block, its version byte and the semaphore, and a writer that waits for the semaphore is in
-- the call. `SemCtl` is not in the repository: it is a parameter, a counting semaphore by hypothesis.
-- ConHash/Moves has what one step of a writer changes, ConHash/Steps the invariant, ConHash/Safety what is
-- read, ConHash/Returns the end of `SafeSet` and ConHash/Liveness that of `SafeGet`. Two forms are left out,
-- which hand out pointers. Caravel/Cbc models Caravel/AES.cpp, over the cipher of OpenSSL as a parameter, and
-- `m_Encrypt` and `m_Decrypt` of the client.
--
-- Caravel/Redis models Caravel/RedisHelper.cpp: the connection pools, the redirection of a Redis cluster and
-- the flattening of replies, over the library redis3m as a parameter, a network that answers a command at an
-- address. A call returns, throws, or is undefined. Redis/Moved reads the address of a redirection, and
-- Redis/Cluster states what a cluster does and what the helper does on it. Proxy/Plain models RunCommand and
-- the plaintext searches of Proxy/TProxy.cpp on it; the walk with a cursor has fuel, as many rounds as the
-- server has pages. Client/Plain models the plaintext operations of the client, Plain/Ranked follows
-- rows that are put to the sorted set of a server, and Client/Spread is the random
-- sequence in which they ask the proxies: a draw has fuel, and `rand` is a parameter in which every server
-- comes up within that many numbers.
--
-- Proxy/OnCluster models the handler of Proxy/TProxyCluster.cpp on the same helper.
--
-- Caravel/Digest models Caravel/Digest.cpp and Caravel/PRF.cpp over SHA-256 and HMAC as parameters, and
-- Caravel/BitConvert.cpp, where the text of a byte is a parameter.
--
-- Caravel/BlindSign models Caravel/RSABlindSign.cpp over GMP as a parameter: BlindSign/Modular has the
-- powers modulo a number, and BlindSign/Accepts follows a signature from the client to the server and back.
--
-- Not modelled: shared memory, clocks, connections of Thrift, generated Thrift code, and test programs.
mod Base
pub mod Bits
pub mod Memory
pub mod Fastore
pub mod Proxy
pub mod Client
pub mod Caravel
mod Tests
